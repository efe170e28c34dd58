-- ===== src/TopologyApi/Tests.antt =====
-- Requests of the topology service at concrete inputs.
use net_test_toy.TopologyApi.{
  delete_host, delete_node, failed, get_lab_topology, mutate, remove_node_network, request,
}
use net_test_toy.Http.{
  Holds, Json, Outcome, Request, Server, array, empty, error, field, item, nil, object, outcome,
  returned, run, sent, show, text, thrown,
}
use net_test_toy.TopologyApi.Deletes.{
  delete_node_slash, node_network, perform, read_delete, read_delete-perform,
}
use net_test_toy.TopologyApi.Segments.{is_name}
use net_test_toy.TopologyApi.Lab.Rooted.{IsRooted, get_lab_topology-IsRooted}
use net_test_toy.Base.{[], map, none, refl, some, suc, text_dec, ℕ, ◌<>◌, ◌∷◌, ◌≡◌}

abbrev silent : Request → Outcome Json
silent r = thrown (error "TypeError" "Failed to fetch")

read_delete-perform_example :
    map read_delete (sent silent (perform (node_network "lab" "r1" "net1") none))
    ≡ some (node_network "lab" "r1" "net1") ∷ []
unfolding is_name text_dec
read_delete-perform_example =
    read_delete-perform silent (node_network "lab" "r1" "net1") (refl, refl, refl)

delete_node_slash_example :
    sent silent (delete_node "lab" ("r1" <> ("/networks/" <> "net1")) none)
    ≡ sent silent (remove_node_network "lab" "r1" "net1" none)
delete_node_slash_example = delete_node_slash silent "lab" "r1" "net1" none

refused :
    outcome silent (delete_host "h1" none)
    ≡ returned (failed "Failed to delete host" (error "TypeError" "Failed to fetch"))
unfolding delete_host mutate
refused = refl

-- A lab with a network, and a daemon in it
abbrev one_daemon : Server ℕ
one_daemon r n = (
  returned (
      object (
        field "networks" (array (item (object (field "name" (text "net1") empty)) nil)) (
          field "daemons"
            (array (
              item
                (object (
                  field "name" (text "r1") (
                    field "interfaces"
                      (array (
                        item
                          (object
                            (field "network" (text "net1") (field "ipv4" (text "10.0.0.2") empty)))
                          nil))
                      empty)))
                nil))
            empty))),
  suc n,
)

get_lab_topology-IsRooted_example : Holds IsRooted (run one_daemon (get_lab_topology none) 0).0
get_lab_topology-IsRooted_example = get_lab_topology-IsRooted one_daemon none 0

linked :
    (run one_daemon (get_lab_topology none) 0).0
    ≡ returned (record {
      nodes =
          record {
            id = "net-net1";
            name = some (text "net1");
            node_type = "network";
            content = object (field "name" (text "net1") empty);
          }
          ∷ record {
            id = "daemon-r1";
            name = some (text "r1");
            node_type = "daemon";
            content = object (
                field "name" (text "r1") (
                  field "interfaces"
                    (array (
                      item
                        (object
                          (field "network" (text "net1") (field "ipv4" (text "10.0.0.2") empty)))
                        nil))
                    empty));
          }
          ∷ [];
      links =
          record {
            source = "daemon-r1";
            target = "net-net1";
            link_type = "network";
            label = some (text "10.0.0.2");
          }
          ∷ [];
    })
unfolding get_lab_topology text_dec request show
linked = refl
