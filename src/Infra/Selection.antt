-- ===== src/Infra/Selection.antt =====
-- The node that is chosen (infra/infra.go `SelectNode`), for a float64 whose comparisons are an order.
use vps_billing_workbuddy.Prelude.{
  ℕ, ◌≡◌, ◌↔◌, subst, refl, ◌∙◌, Bool, true, false, not, ltb, none, some, List, [], ◌∷◌, All, inl,
  inr, Bool-cases, if◌then◌else◌, arith,
}
use vps_billing_workbuddy.Prelude.Int.{ℤ, ltb_ℤ, ◌==ℤ◌, ==ℤ_iff}
use vps_billing_workbuddy.Errors.{ok, err, no_node_available}
use vps_billing_workbuddy.Rows.{count_where}
use vps_billing_workbuddy.Rows.Places.{Option-cases, Stands, Stands-behind, first_Stands}
use vps_billing_workbuddy.Infra.{
  Float, Spec, Node, is_candidate, load_ratio, precedes, first_candidate, select_node,
}

-- Equality and the strict order of floats that are numbers.
pub record IsOrdered {F : Type 0} (float : Float F) : Type 0 where
  pub eq_same : (a b : F) → float.eq_f a b ≡ true → a ≡ b
  pub eq_itself : (a : F) → float.eq_f a a ≡ true
  pub lt_itself : (a : F) → float.lt_f a a ≡ false
  pub lt_chain : (a b c : F) → float.lt_f a b ≡ true → float.lt_f b c ≡ true → float.lt_f a c ≡ true

-- The order of two nodes, by their ratios, weights and identifiers.
abbrev order_of : Bool → Bool → Bool → Bool → Bool → Bool
order_of same_ratio less_ratio same_weight more_weight less_id =
    if not same_ratio then less_ratio else if not same_weight then more_weight else less_id

weight_chain :
    (a b c : ℤ) → ltb_ℤ b a ≡ true → ltb_ℤ c b ≡ true → (ltb_ℤ c a ≡ true) × ((a ==ℤ c) ≡ false)
weight_chain a b c h k = (ground arith, ground arith)

id_chain : (a b c : ℕ) → ltb a b ≡ true → ltb b c ≡ true → ltb a c ≡ true
id_chain a b c h k = ground arith

-- Nodes of one ratio, by weight and identifier.
tie_chain :
    (u v x : ℤ) (i j k : ℕ)
    → (if not (u ==ℤ v) then ltb_ℤ v u else ltb i j) ≡ true
    → (if not (v ==ℤ x) then ltb_ℤ x v else ltb j k) ≡ true
    → (if not (u ==ℤ x) then ltb_ℤ x u else ltb i k) ≡ true
tie_chain u v x i j k h l = elim (Bool-cases (u ==ℤ v)) [
  | inl same ↦
      let equal = (==ℤ_iff u v).0 same in
      elim (Bool-cases (v ==ℤ x)) [
        | inl same' ↦ let round = (==ℤ_iff u x).1 (equal ∙ (==ℤ_iff v x).0 same') in ground arith
        | inr other' ↦ rw equal (ground arith)
      ]
  | inr other ↦ elim (Bool-cases (v ==ℤ x)) [
    | inl same' ↦ let equal' = (==ℤ_iff v x).0 same' in rw (← equal') (ground arith)
    | inr other' ↦
        let (more, unlike) = weight_chain u v x (ground arith) (ground arith) in ground arith
  ]
]

module _ {F : Type 0} (float : Float F) (laws : IsOrdered float) where
  precedes-itself : (a : Node F) → precedes float a a ≡ false
  unfolding precedes
  precedes-itself a =
      let same = laws.eq_itself (load_ratio float a) in
      let same_weight = (==ℤ_iff a.weight a.weight).1 refl in ground arith

  ratio_chain :
      (a b c : F)
      → float.lt_f a b ≡ true
      → float.lt_f b c ≡ true
      → (float.lt_f a c ≡ true) × (float.eq_f a c ≡ false)
  ratio_chain a b c h k = (
    laws.lt_chain a b c h k,
    elim (Bool-cases (float.eq_f a c)) [
      | inl same ↦
          let equal = laws.eq_same a c same in
          let round = laws.lt_chain b c b k (rw (← equal) h) in
          let never = laws.lt_itself b in ground arith
      | inr other ↦ other
    ],
  )

  ranks_chain :
      (r s t : F) (u v x : ℤ) (i j k : ℕ)
      → order_of (float.eq_f r s) (float.lt_f r s) (u ==ℤ v) (ltb_ℤ v u) (ltb i j) ≡ true
      → order_of (float.eq_f s t) (float.lt_f s t) (v ==ℤ x) (ltb_ℤ x v) (ltb j k) ≡ true
      → order_of (float.eq_f r t) (float.lt_f r t) (u ==ℤ x) (ltb_ℤ x u) (ltb i k) ≡ true
  ranks_chain r s t u v x i j k h l = elim (Bool-cases (float.eq_f r s)) [
    | inl same ↦
        let equal = laws.eq_same r s same in
        elim (Bool-cases (float.eq_f s t)) [
          | inl same' ↦
              let tie = tie_chain u v x i j k (ground arith) (ground arith) in
              rw equal (ground arith)
          | inr other' ↦ rw equal (ground arith)
        ]
    | inr other ↦ elim (Bool-cases (float.eq_f s t)) [
      | inl same' ↦ let equal' = laws.eq_same s t same' in rw (← equal') (ground arith)
      | inr other' ↦
          let (less, unlike) = ratio_chain r s t (ground arith) (ground arith) in ground arith
    ]
  ]

  precedes-chain :
      (a b c : Node F)
      → precedes float a b ≡ true
      → precedes float b c ≡ true
      → precedes float a c ≡ true
  unfolding precedes
  precedes-chain a b c h k =
      ranks_chain (load_ratio float a) (load_ratio float b) (load_ratio float c) a.weight b.weight
        c.weight a.id b.id c.id h k

  -- No candidate of the list precedes the node.
  abbrev pub IsFirst : Spec F → List (Node F) → Node F → Type 0
  IsFirst spec nodes n =
      All (λ (m : Node F). is_candidate float spec m ≡ true → precedes float m n ≡ false) nodes

  abbrev pub IsChosen : Spec F → List (Node F) → Node F → Type 0
  IsChosen spec nodes n = (is_candidate float spec n ≡ true) × Stands n nodes × IsFirst spec nodes n

  IsFirst-chain :
      (spec : Spec F) (x y : Node F) (ns : List (Node F))
      → precedes float x y ≡ true
      → IsFirst spec ns y
      → IsFirst spec ns x
  IsFirst-chain spec x y [] less h = tt
  IsFirst-chain spec x y (m ∷ ms) less (f, h) = (
    λ c. elim (Bool-cases (precedes float m x)) [
      | inl before ↦
          let chained = precedes-chain m x y before less in let never = f c in ground arith
      | inr behind ↦ behind
    ],
    IsFirst-chain spec x y ms less h,
  )

  none-IsFirst :
      (spec : Spec F) (ns : List (Node F)) (x : Node F)
      → first_candidate float spec ns ≡ none
      → IsFirst spec ns x
  unfolding first_candidate
  none-IsFirst spec [] x h = tt
  none-IsFirst spec (m ∷ ms) x h = elim (Bool-cases (is_candidate float spec m)) [
    | inl fits ↦ ground arith
    | inr unfit ↦ (λ c. ground arith, none-IsFirst spec ms x (ground arith))
  ]

  first_candidate_lem :
      (spec : Spec F) (ns : List (Node F)) (n : Node F)
      → first_candidate float spec ns ≡ some n
      → IsChosen spec ns n
  unfolding first_candidate
  first_candidate_lem spec [] n h = cc
  first_candidate_lem spec (x ∷ xs) n h = elim (Bool-cases (is_candidate float spec x)) [
    | inr unfit ↦
        let (fits, stands, first) = first_candidate_lem spec xs n (ground arith) in
        (fits, Stands-behind x n xs stands, (λ c. ground arith, first))
    | inl fits ↦ elim (Option-cases (first_candidate float spec xs)) [
      | inl nothing ↦
          let same : x ≡ n = ground arith in
          subst (IsChosen spec (x ∷ xs)) same (
            fits,
            first_Stands x x xs refl,
            (λ c. precedes-itself x, none-IsFirst spec xs x nothing),
          )
      | inr (y, later) ↦
          let (fits', stands, first) = first_candidate_lem spec xs y later in
          elim (Bool-cases (precedes float x y)) [
            | inl less ↦
                let same : x ≡ n = ground arith in
                subst (IsChosen spec (x ∷ xs)) same (
                  fits,
                  first_Stands x x xs refl,
                  (λ c. precedes-itself x, IsFirst-chain spec x y xs less first),
                )
            | inr more ↦
                let same : y ≡ n = ground arith in
                subst (IsChosen spec (x ∷ xs)) same
                  (fits', Stands-behind x y xs stands, (λ c. more, first))
          ]
    ]
  ]

  -- For floats whose comparisons are an order, the node that SelectNode answers is in the list, is
  -- online, supports and can hold what is asked for, and no other such node of the list comes before
  -- it in load, weight and identifier.
  pub select_node_lem :
      (spec : Spec F) (nodes : List (Node F)) (n : Node F)
      → select_node float spec nodes ≡ ok n
      → IsChosen spec nodes n
  unfolding select_node
  select_node_lem spec nodes n h = first_candidate_lem spec nodes n (ground arith)

module _ {F : Type 0} (float : Float F) where
  none_counted :
      (spec : Spec F) (ns : List (Node F))
      → first_candidate float spec ns ≡ none
      → count_where (is_candidate float spec) ns ≡ 0
  unfolding first_candidate count_where
  none_counted spec [] h = refl
  none_counted spec (x ∷ xs) h = ground (arith, none_counted spec xs)

  counted_none :
      (spec : Spec F) (ns : List (Node F))
      → count_where (is_candidate float spec) ns ≡ 0
      → first_candidate float spec ns ≡ none
  unfolding first_candidate count_where
  counted_none spec [] h = refl
  counted_none spec (x ∷ xs) h = ground (arith, counted_none spec xs)

  -- SelectNode reports that no node is available exactly when the list has no node that is online,
  -- supports and can hold what is asked for.
  pub select_node_none_iff :
      (spec : Spec F) (nodes : List (Node F))
      → (select_node float spec nodes ≡ err no_node_available)
        ↔ (count_where (is_candidate float spec) nodes ≡ 0)
  unfolding select_node
  select_node_none_iff spec nodes = (
    λ h. none_counted spec nodes (elim (Option-cases (first_candidate float spec nodes)) [
      | inl nothing ↦ nothing
      | inr (n, chosen) ↦ ground arith
    ]),
    λ h. let nothing = counted_none spec nodes h in ground arith,
  )
