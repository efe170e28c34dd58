-- ===== src/TopologyApi/Lab/Rooted.antt =====
-- services/topology/topologyService.ts: where the links of the lab's layout start.
use net_test_toy.TopologyApi.Lab.{
  Layout, LayoutLink, LayoutNode, NodeKind, collect, container_step, each, each_given,
  get_lab_topology, interface_link, lab_layout, layout_join, network_step, no_layout, node_of,
  on_daemon, on_host, part, peer_step, prefix,
}
use net_test_toy.Http.{
  Holds, Items, Json, Outcome, Server, and_then-Holds, bind-Ensures, item, lift, lift-Ensures, nil,
  read, returned, run, run-Ensures, show_option, thrown,
}
use net_test_toy.Base.{
  All, All-append, All-mono, List, Option, String, [], ap, arith, map, refl, text_dec, true, ◌++◌,
  ◌<>◌, ◌==◌, ◌||◌, ◌∙◌, ◌∷◌, ◌≡◌,
}
use net_test_toy.Base.Texts.{includes, includes-append}

abbrev pub ids : Layout → List String
ids l = map (λ n. n.id) l.nodes

-- A link of the type `network` starts at a node of `names`.
abbrev pub Starts : List String → LayoutLink → Type 0
Starts names k = k.link_type == "network" ≡ true → includes k.source names ≡ true

abbrev pub IsRooted : Layout → Type 0
IsRooted l = All (Starts (ids l)) l.links

ids-append : (a b : Layout) → ids (layout_join a b) ≡ ids a ++ ids b
ids-append a b = go a.nodes b.nodes
  where
    go :
        (xs ys : List LayoutNode)
        → map (λ n. n.id) (xs ++ ys) ≡ map (λ n. n.id) xs ++ map (λ n. n.id) ys
    go [] ys = refl
    go (x ∷ xs) ys = ap (λ zs. x.id ∷ zs) (go xs ys)

layout_join-IsRooted : (a b : Layout) → IsRooted a → IsRooted b → IsRooted (layout_join a b)
layout_join-IsRooted a b h k =
    let there : (s : String)
        → includes s (ids (layout_join a b)) ≡ (includes s (ids a) || includes s (ids b)) =
      λ s. ap (includes s) (ids-append a b) ∙ includes-append s (ids a) (ids b) in
    All-append (Starts (ids (layout_join a b))) a.links b.links
      (All-mono a.links (λ x f e. ground (arith, there x.source, f e)) h)
      (All-mono b.links (λ x f e. ground (arith, there x.source, f e)) k)

-- A property of layouts that joins keep holds of what is collected.
collect-Holds :
    (R : Layout → Type 0) (step : Json → Outcome Layout)
    → R no_layout
    → ((a b : Layout) → R a → R b → R (layout_join a b))
    → ((v : Json) → Holds R (step v))
    → (xs : Items) → Holds R (collect step xs)
unfolding collect
collect-Holds R step z j f nil = z
collect-Holds R step z j f (item v xs) = and_then-Holds R R (step v) _ (f v) (λ a p.
    and_then-Holds R R (collect step xs) _ (collect-Holds R step z j f xs) (λ b q. j a b p q))

-- Every link starts at the one node.
abbrev From : String → Layout → Type 0
From s l = All (λ k. k.source ≡ s) l.links

Anything : {A : Type 0} → A → Type 0
Anything a = Unit

anything : {A : Type 0} (o : Outcome A) → Holds Anything o
unfolding Anything
anything (returned a) = tt
anything (thrown f) = tt

interface_link-From : (s : String) (v : Json) → Holds (From s) (interface_link s v)
unfolding interface_link
interface_link-From s v =
    and_then-Holds Anything (From s) (read "network" v) _ (anything _) (λ network a.
      and_then-Holds Anything (From s) (read "ipv4" v) _ (anything _) (λ ipv4 b. (refl, tt)))

container_step-IsRooted : (kind : NodeKind) (v : Json) → Holds IsRooted (container_step kind v)
unfolding container_step node_of
container_step-IsRooted kind v =
    and_then-Holds Anything IsRooted (read "name" v) _ (anything _) (λ name a.
      and_then-Holds Anything IsRooted (read "interfaces" v) _ (anything _) (λ o b.
        and_then-Holds Anything IsRooted (each_given o) _ (anything _) (λ xs c.
          let s : String = prefix kind <> show_option name in
          and_then-Holds (From s) IsRooted (collect (interface_link s) xs) _
            (collect-Holds (From s) (interface_link s) tt
              (λ x y p q. All-append (λ k. k.source ≡ s) x.links y.links p q)
              (interface_link-From s) xs)
            (λ rest p. All-mono rest.links (λ k e t. ground (arith, e)) p))))

network_step-IsRooted : (v : Json) → Holds IsRooted (network_step v)
unfolding network_step
network_step-IsRooted v =
    and_then-Holds Anything IsRooted (read "name" v) _ (anything _) (λ name a. tt)

peer_step-IsRooted : (v : Json) → Holds IsRooted (peer_step v)
unfolding peer_step text_dec
peer_step-IsRooted v = and_then-Holds Anything IsRooted (read "source" v) _ (anything _) (λ s a.
    and_then-Holds Anything IsRooted (read "target" v) _ (anything _) (λ t b.
      and_then-Holds Anything IsRooted (read "source_asn" v) _ (anything _) (λ n c.
        and_then-Holds Anything IsRooted (read "target_asn" v) _ (anything _)
          (λ m d. ((λ e. ground (arith, e)), tt)))))

part-IsRooted :
    (k : String) (step : Json → Outcome Layout) (v : Json)
    → ((x : Json) → Holds IsRooted (step x))
    → Holds IsRooted (part k step v)
unfolding part
part-IsRooted k step v f = and_then-Holds Anything IsRooted (read k v) _ (anything _) (λ o a.
    and_then-Holds Anything IsRooted (each o) _ (anything _)
      (λ xs b. collect-Holds IsRooted step tt layout_join-IsRooted f xs))

lab_layout-IsRooted : (v : Json) → Holds IsRooted (lab_layout v)
unfolding lab_layout
lab_layout-IsRooted v =
    and_then-Holds IsRooted IsRooted (part "networks" network_step v) _
      (part-IsRooted "networks" network_step v network_step-IsRooted)
      (λ a p.
        and_then-Holds IsRooted IsRooted (part "daemons" (container_step on_daemon) v) _
          (part-IsRooted "daemons" (container_step on_daemon) v (container_step-IsRooted on_daemon))
          (λ b q.
            and_then-Holds IsRooted IsRooted (part "hosts" (container_step on_host) v) _
              (part-IsRooted "hosts" (container_step on_host) v (container_step-IsRooted on_host))
              (λ c r.
                and_then-Holds IsRooted IsRooted (part "bgp_peers" peer_step v) _
                  (part-IsRooted "bgp_peers" peer_step v peer_step-IsRooted)
                  (λ d s.
                    layout_join-IsRooted a (layout_join b (layout_join c d)) p (
                      layout_join-IsRooted b (layout_join c d) q (layout_join-IsRooted c d r s))))))

-- Whatever the server answers, a layout of the lab that is returned has each of its network links
-- start at one of its nodes.
pub get_lab_topology-IsRooted :
    {W : Type 0} (serve : Server W) (h : Option String) (w : W)
    → Holds IsRooted (run serve (get_lab_topology h) w).0
unfolding get_lab_topology
get_lab_topology-IsRooted serve h w = run-Ensures IsRooted serve (get_lab_topology h) w (λ o.
    bind-Ensures IsRooted (lift o) (λ v. lift (lab_layout v))
      (λ v. lift-Ensures IsRooted (lab_layout v) (lab_layout-IsRooted v)))
