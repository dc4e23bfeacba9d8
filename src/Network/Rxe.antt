-- ===== src/Network/Rxe.antt =====
-- rxe.go: the ranges of queue pair and memory region numbers that a node's containers start at.
pub mod Hooks
use konk.Base.{
  ℕ, ◌+◌, ◌*◌, suc, ◌%◌, ◌^◌, ◌≤◌, ◌<◌, ◌≡◌, refl, String, ok, err, Fallible, none, some, arith,
  ◌==◌, string_eq, false, ap, ◌∙◌, eq_self,
}
use native.Mathlib.Nat.{mod-eq_of_lt, suc-mul, mul-le-mul_right}
use konk.Base.Dict.{lookup, insert, lookup-insert}
use konk.Container.Labels.{Value, Labels, uint_value, add_label, get_label_uint}

pub record NetworkRxe : Type 0 where
  pub qpnpn : ℕ
  pub minqpn : ℕ
  pub mrnpn : ℕ
  pub minmrn : ℕ

-- `uint` has 64 bits.
abbrev pub start_of : ℕ → ℕ → ℕ → ℕ
start_of id per_node least = (id * per_node + least) % 2 ^ 64

unfoldable pub add_labels : NetworkRxe → Labels → Fallible × Labels
add_labels n l = elim (get_label_uint "nymph-id" l) [
  | err e ↦ (err e, l)
  | ok id ↦
      let (r, l₁) = add_label "rxe-qpnstart" (uint_value (start_of id n.qpnpn n.minqpn)) l in
      elim r [
        | err e ↦ (err e, l₁)
        | ok _ ↦ add_label "rxe-mrnstart" (uint_value (start_of id n.mrnpn n.minmrn)) l₁
      ]
]

pub start_apart :
    (i j per_node least : ℕ)
    → i < j
    → j * per_node + least < 2 ^ 64
    → start_of i per_node least + per_node ≤ start_of j per_node least
start_apart i j per_node least h bound =
    let next : suc i * per_node ≤ j * per_node = mul-le-mul_right per_node h in
    let below : i * per_node + least < 2 ^ 64 = omega (arith, next, suc-mul i per_node) in
    let upper : (j * per_node + least) % 2 ^ 64 ≡ j * per_node + least = mod-eq_of_lt bound in
    let lower : (i * per_node + least) % 2 ^ 64 ≡ i * per_node + least = mod-eq_of_lt below in
    omega (arith, next, suc-mul i per_node, upper, lower)

-- Adding under a new key.
add_label_new :
    (key : String) (v : Value) (l : Labels)
    → lookup key l.data' ≡ none
    → add_label key v l ≡ (ok tt, record { data' = insert key v l.data' })
unfolding add_label
add_label_new key v l e = rw (e, add_label) refl

keys_differ :
    (◌==◌ {A = String} "rxe-mrnstart" "rxe-qpnstart" ≡ false)
    × (◌==◌ {A = String} "rxe-qpnstart" "rxe-mrnstart" ≡ false)
unfolding string_eq
keys_differ = (refl, refl)

get_label_uint_of :
    (key : String) (n : ℕ) (l : Labels)
    → lookup key l.data' ≡ some (uint_value n)
    → get_label_uint key l ≡ ok n
unfolding get_label_uint
get_label_uint_of key n l e = rw (e, get_label_uint) refl

-- A container of the nymph `id` whose labels have no numbers yet gets those of that nymph.
pub add_labels_lem :
    (n : NetworkRxe) (l : Labels) (id : ℕ)
    → get_label_uint "nymph-id" l ≡ ok id
    → lookup "rxe-qpnstart" l.data' ≡ none
    → lookup "rxe-mrnstart" l.data' ≡ none
    → let (r, l') = add_labels n l in
      (r ≡ ok tt)
      × (get_label_uint "rxe-qpnstart" l' ≡ ok (start_of id n.qpnpn n.minqpn))
      × (get_label_uint "rxe-mrnstart" l' ≡ ok (start_of id n.mrnpn n.minmrn))
unfolding add_labels
add_labels_lem n l id e qpn mrn =
    let q = uint_value (start_of id n.qpnpn n.minqpn) in
    let m = uint_value (start_of id n.mrnpn n.minmrn) in
    let d₁ = insert "rxe-qpnstart" q l.data' in
    let l₁ : Labels = record { data' = d₁ } in
    let free : lookup "rxe-mrnstart" d₁ ≡ none =
      lookup-insert "rxe-mrnstart" "rxe-qpnstart" q l.data' ∙ rw (keys_differ.0, mrn) refl in
    let first = add_label_new "rxe-qpnstart" q l qpn in
    let second = add_label_new "rxe-mrnstart" m l₁ free in
    let all : add_labels n l ≡ (ok tt, record { data' = insert "rxe-mrnstart" m d₁ }) =
      rw (e, first, add_labels)
        (ap (λ (x : Fallible × Labels). add_label "rxe-mrnstart" m x.1) first ∙ second) in
    let l₂ : Labels = record { data' = insert "rxe-mrnstart" m d₁ } in
    (
      ap (λ (x : Fallible × Labels). x.0) all,
      ap (λ (x : Fallible × Labels). get_label_uint "rxe-qpnstart" x.1) all
          ∙ get_label_uint_of "rxe-qpnstart" (start_of id n.qpnpn n.minqpn) l₂ (
              lookup-insert "rxe-qpnstart" "rxe-mrnstart" m d₁
              ∙ rw (keys_differ.1) (
                  lookup-insert "rxe-qpnstart" "rxe-qpnstart" q l.data'
                  ∙ rw (eq_self {A = String} "rxe-qpnstart") refl)),
      ap (λ (x : Fallible × Labels). get_label_uint "rxe-mrnstart" x.1) all
          ∙ get_label_uint_of "rxe-mrnstart" (start_of id n.mrnpn n.minmrn) l₂ (
              lookup-insert "rxe-mrnstart" "rxe-mrnstart" m d₁
              ∙ rw (eq_self {A = String} "rxe-mrnstart") refl),
    )

-- Two nymphs with different identifiers give their containers ranges of queue pair and memory region
-- numbers that do not overlap, as long as the numbers of the higher one fit in 64 bits and the labels
-- are new.
add_labels_disjoint :
    (n : NetworkRxe) (l k : Labels) (i j : ℕ)
    → get_label_uint "nymph-id" l ≡ ok i
    → get_label_uint "nymph-id" k ≡ ok j
    → i < j
    → j * n.qpnpn + n.minqpn < 2 ^ 64
    → j * n.mrnpn + n.minmrn < 2 ^ 64
    → lookup "rxe-qpnstart" l.data' ≡ none
    → lookup "rxe-mrnstart" l.data' ≡ none
    → lookup "rxe-qpnstart" k.data' ≡ none
    → lookup "rxe-mrnstart" k.data' ≡ none
    → let (_, l') = add_labels n l in
      let (_, k') = add_labels n k in
      (qa qb ma mb : ℕ) × (get_label_uint "rxe-qpnstart" l' ≡ ok qa)
      × (get_label_uint "rxe-qpnstart" k' ≡ ok qb)
      × (qa + n.qpnpn ≤ qb)
      × (get_label_uint "rxe-mrnstart" l' ≡ ok ma)
      × (get_label_uint "rxe-mrnstart" k' ≡ ok mb)
      × (ma + n.mrnpn ≤ mb)
add_labels_disjoint n l k i j e f h qpns mrns ql ml qk mk =
    let (_, a, b) = add_labels_lem n l i e ql ml in
    let (_, c, d) = add_labels_lem n k j f qk mk in
    (
      start_of i n.qpnpn n.minqpn,
      start_of j n.qpnpn n.minqpn,
      start_of i n.mrnpn n.minmrn,
      start_of j n.mrnpn n.minmrn,
      a,
      c,
      start_apart i j n.qpnpn n.minqpn h qpns,
      b,
      d,
      start_apart i j n.mrnpn n.minmrn h mrns,
    )
