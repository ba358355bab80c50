-- ===== src/Examples/Started.antt =====
-- nodes/regularNode.go: runs of a regular node that commits to a new round, from its first start.
use drb_node.Base.{
  ◌≢◌, false, ◌≡◌, refl, ap, sym, ◌∙◌, some-inj, Bytes, bytes_eq, codes, some, [], All,
}
use drb_node.Utils.Signature.{key_eoa}
use drb_node.Utils.PeerId.{create_host}
use drb_node.Regular.Sends.Signed.{IsSigned}
use drb_node.Regular.Node.{run_regular_node}
use drb_node.Regular.Node.Signed.{run_regular_node-AllSigned}
use drb_node.Regular.Node.Again.{run_regular_node-again}
use drb_node.Examples.Toy.{toy_ethereum}
use drb_node.Examples.Files.{secret_key1}
use drb_node.Examples.Network.{made1}
use drb_node.Examples.Regular.{env1, node7, machine2, events1}

made1_alone :
    (host_key id : Bytes)
    → (create_host machine2.identities machine2.host env1.port []).0 ≡ some (host_key, id)
    → id ≡ codes "key"
made1_alone host_key id made =
    ap (λ p. p.1) (some-inj (host_key, id) (codes "key", codes "key") (sym made ∙ made1))

run1-AllSigned :
    All
      (IsSigned toy_ethereum (key_eoa toy_ethereum secret_key1) (codes "key"))
      (run_regular_node toy_ethereum machine2 env1 events1 [] node7).0.outputs
run1-AllSigned =
    run_regular_node-AllSigned toy_ethereum machine2 env1 secret_key1 (codes "key") events1 [] node7
      refl made1_alone tt

port_set : env1.port ≢ []
port_set e = cc

run1-again :
    let (t, files) = run_regular_node toy_ethereum machine2 env1 events1 [] node7 in
    let t' = record t { exited = false } in
    All
      (IsSigned toy_ethereum (key_eoa toy_ethereum secret_key1) (codes "key"))
      (run_regular_node toy_ethereum machine2 env1 events1 files t').0.outputs
run1-again =
    run_regular_node-again toy_ethereum machine2 machine2 env1 env1 secret_key1 (codes "key")
      (codes "key") events1 events1 [] node7 refl refl refl port_set refl refl made1 tt
