-- ===== src/Capacity/Books/Nodes.antt =====
-- The counters of a node as capacity is promised, allocated and given back.
use vps_billing_workbuddy.Prelude.{
  ℕ, ◌≡◌, ◌≤◌, ◌+◌, ◌==◌, refl, ◌∙◌, true, false, List, inl, inr, Bool-cases, arith,
}
use vps_billing_workbuddy.Errors.{ok}
use vps_billing_workbuddy.Database.{ok_pair}
use vps_billing_workbuddy.Ledger.{Uuid}
use vps_billing_workbuddy.Calendar.{Time}
use vps_billing_workbuddy.Rows.{count_where}
use vps_billing_workbuddy.Rows.Updates.{All-both, All-update, count_where-kept, selected_by_key}
use vps_billing_workbuddy.Capacity.Sql.{
  Part, Amounts, amount, plus, minus, within, NodeRow, Reservation, Tables, has_node_id, has_room,
  promise, holds, give_back, allocate, is_short, update_nodes, reserve_node_resources,
  commit_node_resources, release_node_resources,
}
use vps_billing_workbuddy.Capacity.Books.{Debt, owing, IsBalanced, IsSound}

within-parts : (a b : Amounts) → within a b ≡ true → (p : Part) → amount p a ≤ amount p b
within-parts a b h Part.cpu = ground arith
within-parts a b h Part.memory = ground arith
within-parts a b h Part.disk = ground arith

parts-within : (a b : Amounts) → ((p : Part) → amount p a ≤ amount p b) → within a b ≡ true
parts-within a b h =
    let c = h Part.cpu in let m = h Part.memory in let d = h Part.disk in ground arith

pub amount-plus : (p : Part) (a b : Amounts) → amount p (plus a b) ≡ amount p a + amount p b
amount-plus Part.cpu a b = refl
amount-plus Part.memory a b = refl
amount-plus Part.disk a b = refl

amount-minus :
    (p : Part) (a b : Amounts)
    → amount p b ≤ amount p a
    → amount p (minus a b) + amount p b ≡ amount p a
amount-minus Part.cpu a b h = omega arith
amount-minus Part.memory a b h = omega arith
amount-minus Part.disk a b h = omega arith

module _ (node_id : Uuid) (spec : Amounts) (at : Time) (debt : Debt) (rs : List Reservation) where
  owing-here :
      (p : Part) (id : Uuid)
      → (id == node_id) ≡ true
      → owing node_id spec debt p id ≡ amount p spec + debt p id
  unfolding owing
  owing-here p id h = ground arith

  owing-elsewhere :
      (p : Part) (id : Uuid) → (id == node_id) ≡ false → owing node_id spec debt p id ≡ debt p id
  unfolding owing
  owing-elsewhere p id h = ground arith

  promise-IsBalanced :
      (n : NodeRow)
      → has_room node_id spec n ≡ true
      → IsBalanced debt rs n
      → IsBalanced (owing node_id spec debt) rs (promise spec at n)
  promise-IsBalanced n h b =
      let same : (n.id == node_id) ≡ true = ground arith in
      let room : within (plus (plus n.allocated n.reserved) spec) n.total ≡ true = ground arith in
      record {
        fits = λ p.
            let bound = within-parts (plus (plus n.allocated n.reserved) spec) n.total room p in
            let outer = amount-plus p (plus n.allocated n.reserved) spec in
            let inner = amount-plus p n.allocated n.reserved in
            let more = amount-plus p n.reserved spec in omega arith;
        explained = λ p.
            let more = amount-plus p n.reserved spec in
            let here = owing-here p n.id same in let before = b.explained p in omega arith;
      }

  elsewhere-IsBalanced :
      (n : NodeRow)
      → (n.id == node_id) ≡ false
      → IsBalanced debt rs n
      → IsBalanced (owing node_id spec debt) rs n
  elsewhere-IsBalanced n h b = record {
    fits = b.fits;
    explained = λ p. let away = owing-elsewhere p n.id h in let e = b.explained p in omega arith;
  }

  here_no_more :
      (n : NodeRow)
      → (n.id == node_id) ≡ false
      → IsBalanced (owing node_id spec debt) rs n
      → IsBalanced debt rs n
  here_no_more n h b = record {
    fits = b.fits;
    explained = λ p. let away = owing-elsewhere p n.id h in let e = b.explained p in omega arith;
  }

  covered :
      (n : NodeRow)
      → (n.id == node_id) ≡ true
      → IsBalanced (owing node_id spec debt) rs n
      → (p : Part) → amount p spec ≤ amount p n.reserved
  covered n h b p = let here = owing-here p n.id h in let e = b.explained p in omega arith

  give_back-IsBalanced :
      (n : NodeRow)
      → (n.id == node_id) ≡ true
      → IsBalanced (owing node_id spec debt) rs n
      → IsBalanced debt rs (give_back spec at n)
  give_back-IsBalanced n h b = record {
    fits = λ p.
        let less = amount-minus p n.reserved spec (covered n h b p) in
        let bound = b.fits p in omega arith;
    explained = λ p.
        let less = amount-minus p n.reserved spec (covered n h b p) in
        let here = owing-here p n.id h in let e = b.explained p in omega arith;
  }

  allocate-IsBalanced :
      (n : NodeRow)
      → (n.id == node_id) ≡ true
      → IsBalanced (owing node_id spec debt) rs n
      → IsBalanced debt rs (allocate spec at n)
  allocate-IsBalanced n h b = record {
    fits = λ p.
        let less = amount-minus p n.reserved spec (covered n h b p) in
        let more = amount-plus p n.allocated spec in let bound = b.fits p in omega arith;
    explained = λ p.
        let less = amount-minus p n.reserved spec (covered n h b p) in
        let here = owing-here p n.id h in let e = b.explained p in omega arith;
  }

-- The statements, on tables whose books are sound.
module _ (node_id : Uuid) (spec : Amounts) (at : Time) (debt : Debt) (t : Tables) where
  -- Capacity that was promised is owed.
  pub promise-IsSound :
      IsSound debt t
      → {n : ℕ} {t' : Tables} → reserve_node_resources node_id spec at t ≡ ok (n, t')
      → n ≡ 1
      → IsSound (owing node_id spec debt) t'
  unfolding reserve_node_resources update_nodes
  promise-IsSound s h one = rw (← (ok_pair h).1) record {
    node_keys = λ id.
        rw
          (count_where-kept (has_node_id id) (has_room node_id spec) (promise spec at) (λ n. refl)
            t.nodes)
          (s.node_keys id);
    keys = s.keys;
    open_once = s.open_once;
    balanced =
        All-update
          (λ (n : NodeRow).
            IsBalanced debt t.reservations n
            × ((n.id == node_id) ≡ true → has_room node_id spec n ≡ true))
          (IsBalanced (owing node_id spec debt) t.reservations) (has_room node_id spec)
          (promise spec at)
          (λ n hit (b, keyed). promise-IsBalanced node_id spec at debt t.reservations n hit b)
          (λ n miss (b, keyed). elim (Bool-cases (n.id == node_id)) [
            | inl same ↦ let room = keyed same in ground arith
            | inr other ↦ elsewhere-IsBalanced node_id spec at debt t.reservations n other b
          ])
          t.nodes
          (All-both (IsBalanced debt t.reservations)
            (λ (n : NodeRow). (n.id == node_id) ≡ true → has_room node_id spec n ≡ true) t.nodes
            s.balanced
            (selected_by_key (has_node_id node_id) (has_room node_id spec) (λ n r. ground arith)
              t.nodes (s.node_keys node_id) ((ok_pair h).0 ∙ one)));
  }

  -- Capacity that is owed can be given back, and is owed no more.
  pub give_back-IsSound :
      IsSound (owing node_id spec debt) t
      → {n : ℕ} {t' : Tables} → release_node_resources node_id spec at t ≡ ok (n, t')
      → IsSound debt t'
  unfolding release_node_resources update_nodes
  give_back-IsSound s h = rw (← (ok_pair h).1) record {
    node_keys = λ id.
        rw
          (count_where-kept (has_node_id id) (holds node_id spec) (give_back spec at) (λ n. refl)
            t.nodes)
          (s.node_keys id);
    keys = s.keys;
    open_once = s.open_once;
    balanced =
        All-update (IsBalanced (owing node_id spec debt) t.reservations)
          (IsBalanced debt t.reservations) (holds node_id spec) (give_back spec at)
          (λ n hit b. give_back-IsBalanced node_id spec at debt t.reservations n (ground arith) b)
          (λ n miss b. elim (Bool-cases (n.id == node_id)) [
            | inl same ↦
                let enough =
                  parts-within spec n.reserved
                    (covered node_id spec at debt t.reservations n same b) in
                ground arith
            | inr other ↦ here_no_more node_id spec at debt t.reservations n other b
          ])
          t.nodes s.balanced;
  }

  -- Capacity that is owed can be allocated.
  pub allocate-IsSound :
      IsSound (owing node_id spec debt) t
      → {n : ℕ} {t' : Tables} → commit_node_resources node_id spec at t ≡ ok (n, t')
      → IsSound debt t'
  unfolding commit_node_resources update_nodes
  allocate-IsSound s h = elim (Bool-cases (count_where (is_short node_id spec) t.nodes == 0)) [
    | inr short ↦ ground arith
    | inl enough ↦
        let ran = rw enough at h in
        rw (← (ok_pair ran).1) record {
          node_keys = λ id.
              rw
                (count_where-kept (has_node_id id) (has_node_id node_id) (allocate spec at)
                  (λ n. refl) t.nodes)
                (s.node_keys id);
          keys = s.keys;
          open_once = s.open_once;
          balanced =
              All-update (IsBalanced (owing node_id spec debt) t.reservations)
                (IsBalanced debt t.reservations) (has_node_id node_id) (allocate spec at)
                (λ n hit b. allocate-IsBalanced node_id spec at debt t.reservations n hit b)
                (λ n miss b. here_no_more node_id spec at debt t.reservations n miss b) t.nodes
                s.balanced;
        }
  ]
