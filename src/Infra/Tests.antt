-- ===== src/Infra/Tests.antt =====
-- Tests of the choice of a node, on whole numbers of cores.
use vps_billing_workbuddy.Prelude.{
  ℕ, ◌≡◌, ◌↔◌, refl, ◌-◌, ◌+◌, ◌/◌, ◌==◌, ltb, leb, List, [], ◌∷◌, arith,
}
use vps_billing_workbuddy.Prelude.Int.{pos, ◌-ℤ◌}
use vps_billing_workbuddy.Prelude.Int64.{◌-w◌, wrap64, signed64, bits64}
use vps_billing_workbuddy.Errors.{ok, err, no_node_available}
use vps_billing_workbuddy.Rows.{count_where}
use vps_billing_workbuddy.Infra.{
  Float, NodeStatus, Spec, Node, is_candidate, precedes, select_node, first_candidate,
  free_capacity, supports_spec, load_ratio,
}
use vps_billing_workbuddy.Infra.Selection.{
  IsOrdered, IsChosen, select_node_lem, select_node_none_iff,
}

abbrev cores : Float ℕ
cores = record {
  nought = 0;
  two = 2;
  add_f = λ a b. a + b;
  sub_f = λ a b. a - b;
  div_f = λ a b. a / b;
  eq_f = λ a b. a == b;
  lt_f = λ a b. ltb a b;
  le_f = λ a b. leb a b;
}

cores-IsOrdered : IsOrdered cores
cores-IsOrdered = record {
  eq_same = λ a b h. ground arith;
  eq_itself = λ a. ground arith;
  lt_itself = λ a. ground arith;
  lt_chain = λ a b c h k. ground arith;
}

abbrev node : ℕ → ℕ → Node ℕ
node id allocated = record {
  id = id;
  status = NodeStatus.online;
  cpu_total = 8;
  memory_total_mb = pos 16384;
  disk_total_gb = pos 500;
  cpu_allocated = allocated;
  memory_alloc_mb = pos 1024;
  disk_alloc_gb = pos 20;
  cpu_reserved = 0;
  memory_rsrv_mb = pos 0;
  disk_rsrv_gb = pos 0;
  weight = pos 1;
  supported_runtimes = [];
}

abbrev small : Spec ℕ
small = record { cpu_cores = 1; memory_mb = pos 1024; disk_gb = pos 20; virtualization = "kvm" }

abbrev nodes : List (Node ℕ)
nodes = node 1 8 ∷ node 3 2 ∷ node 2 1 ∷ []

-- The first node is full; the two others have one ratio, and the lesser identifier is chosen.
second_is_chosen : select_node cores small nodes ≡ ok (node 2 1)
unfolding select_node first_candidate is_candidate precedes free_capacity supports_spec load_ratio
    ◌-w◌ wrap64 signed64 bits64 ◌-ℤ◌
second_is_chosen = refl

select_node_example : IsChosen cores cores-IsOrdered small nodes (node 2 1)
select_node_example = select_node_lem cores cores-IsOrdered small nodes (node 2 1) second_is_chosen

select_node_none_example :
    (select_node cores small (node 1 8 ∷ []) ≡ err no_node_available)
    ↔ (count_where (is_candidate cores small) (node 1 8 ∷ []) ≡ 0)
select_node_none_example = select_node_none_iff cores small (node 1 8 ∷ [])
