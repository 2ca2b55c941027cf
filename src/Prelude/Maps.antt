-- ===== src/Prelude/Maps.antt =====
-- A map with texts as keys, as a list of its entries.
use Prim.Native.Nat.{suc}
use mathlib.Core.Path.{◌≡◌, refl, sym, ◌∙◌, ap}
use mathlib.Core.Logic.{inl, inr}
use mathlib.Core.Bool.{true, false}
use mathlib.Core.List.{List, [], ◌∷◌}
use mathlib.Core.Option.{Option, none, some}
use native.Mathlib.Omega.{arith}
use qnx8_qconn_mcp.Prelude.Tests.{if◌then◌else◌, Bool-cases}
use qnx8_qconn_mcp.Prelude.Lists.{All, length}
use qnx8_qconn_mcp.Prelude.Word.{Bytes}
use qnx8_qconn_mcp.Prelude.Text.{same, same_refl}

module _ {ℓ} {A : Type ℓ} where
  -- `m[k]`
  unfoldable pub lookup : Bytes → List (Bytes × A) → Option A
  lookup k [] = none
  lookup k ((j, v) ∷ m) = if same j k then some v else lookup k m

  -- `m[k] = v`
  unfoldable pub insert : Bytes → A → List (Bytes × A) → List (Bytes × A)
  insert k v [] = (k, v) ∷ []
  insert k v ((j, w) ∷ m) = if same j k then (k, v) ∷ m else (j, w) ∷ insert k v m

  -- `delete(m, k)`
  unfoldable pub remove : Bytes → List (Bytes × A) → List (Bytes × A)
  remove k [] = []
  remove k ((j, w) ∷ m) = if same j k then m else (j, w) ∷ remove k m

-- The test on texts decides their equality.
pub same_sound : (a b : Bytes) → same a b ≡ true → a ≡ b
unfolding same
same_sound [] [] h = refl
same_sound [] (y ∷ b) h = cc
same_sound (x ∷ a) [] h = cc
same_sound (x ∷ a) (y ∷ b) h = ground (arith, same_sound a b)

-- A text differs from all that another one differs from, if they are the same.
same-other : (i j k : Bytes) → same i j ≡ true → same i k ≡ false → same k j ≡ false
same-other i j k q e = elim (Bool-cases (same k j)) [
  | inr f ↦ f
  | inl t ↦
      let there : i ≡ k = same_sound i j q ∙ sym (same_sound k j t) in
      let also : same i k ≡ true = ap (λ x. same x k) there ∙ same_refl k in absurd (cc)
]

module _ {ℓ} {A : Type ℓ} where
  pub lookup-insert :
      (k j : Bytes) (v : A) (m : List (Bytes × A))
      → lookup j (insert k v m) ≡ (if same k j then some v else lookup j m)
  unfolding lookup insert
  lookup-insert k j v [] = refl
  lookup-insert k j v ((i, w) ∷ m) = elim (Bool-cases (same i k)) [
    | inl e ↦
        let there : i ≡ k = same_sound i k e in
        elim (Bool-cases (same k j)) [
          | inl q ↦ rw e (rw q)
          | inr q ↦ rw e (rw (q, (ap (λ t. same t j) there ∙ q)))
        ]
    | inr e ↦ elim (Bool-cases (same i j)) [
      | inl q ↦ rw (e, q, same-other i j k q e)
      | inr q ↦ rw (e, q) (lookup-insert k j v m)
    ]
  ]

same_sym : (a b : Bytes) → same a b ≡ false → same b a ≡ false
same_sym a b h = elim (Bool-cases (same b a)) [
  | inr f ↦ f
  | inl t ↦ let e : same a b ≡ true = ap (same a) (same_sound b a t) ∙ same_refl a in absurd (cc)
]

module _ {ℓ} {A : Type ℓ} where
  -- Each key stands once.
  abbrev pub Distinct : List (Bytes × A) → Type ℓ
  Distinct [] = Unit
  Distinct ((k, v) ∷ m) = (lookup k m ≡ none) × Distinct m

  pub Distinct-insert :
      (k : Bytes) (v : A) (m : List (Bytes × A)) → Distinct m → Distinct (insert k v m)
  unfolding insert
  Distinct-insert k v [] d = (unfold lookup in refl, tt)
  Distinct-insert k v ((j, w) ∷ m) d = elim (Bool-cases (same j k)) [
    | inl e ↦ rw e (ap (λ x. lookup x m) (sym (same_sound j k e)) ∙ d.0, d.1)
    | inr e ↦
        let absent : lookup j (insert k v m) ≡ none =
          lookup-insert k j v m ∙ rw (same_sym j k e) d.0 in
        rw e (absent, Distinct-insert k v m d.1)
  ]

  lookup-remove-none :
      (k j : Bytes) (m : List (Bytes × A)) → lookup j m ≡ none → lookup j (remove k m) ≡ none
  unfolding lookup remove
  lookup-remove-none k j [] h = h
  lookup-remove-none k j ((i, w) ∷ m) h = elim (Bool-cases (same i j)) [
    | inl e ↦ absurd (cc (rw e at h))
    | inr e ↦
        let h' : lookup j m ≡ none = rw e at h in
        elim (Bool-cases (same i k)) [
          | inl q ↦ rw q h'
          | inr q ↦ rw q (rw e (lookup-remove-none k j m h'))
        ]
  ]

  pub Distinct-remove : (k : Bytes) (m : List (Bytes × A)) → Distinct m → Distinct (remove k m)
  unfolding remove
  Distinct-remove k [] d = tt
  Distinct-remove k ((j, w) ∷ m) d = elim (Bool-cases (same j k)) [
    | inl e ↦ rw e d.1
    | inr e ↦ rw e (lookup-remove-none k j m d.0, Distinct-remove k m d.1)
  ]

  -- What was removed is gone, and the other keys keep their values.
  pub lookup-remove :
      (k j : Bytes) (m : List (Bytes × A))
      → Distinct m
      → lookup j (remove k m) ≡ (if same k j then none else lookup j m)
  unfolding lookup remove
  lookup-remove k j [] d = elim (Bool-cases (same k j)) [ inl e ↦ rw e | inr e ↦ rw e ]
  lookup-remove k j ((i, w) ∷ m) d = elim (Bool-cases (same i k)) [
    | inl e ↦
        let there : i ≡ k = same_sound i k e in
        elim (Bool-cases (same k j)) [
          | inl q ↦ rw e (rw q (ap (λ x. lookup x m) (sym (there ∙ same_sound k j q)) ∙ d.0))
          | inr q ↦ rw e (rw (q, ap (λ x. same x j) there ∙ q))
        ]
    | inr e ↦ elim (Bool-cases (same i j)) [
      | inl q ↦ rw e (rw (q, same-other i j k q e))
      | inr q ↦ rw e (rw q (lookup-remove k j m d.1))
    ]
  ]

module _ {ℓ κ} {A : Type ℓ} (Q : Bytes × A → Type κ) where
  pub All-insert :
      (k : Bytes) (v : A) (m : List (Bytes × A)) → Q (k, v) → All Q m → All Q (insert k v m)
  unfolding insert
  All-insert k v [] q h = (q, tt)
  All-insert k v ((j, w) ∷ m) q h = elim (Bool-cases (same j k)) [
    | inl e ↦ rw e (q, h.1)
    | inr e ↦ rw e (h.0, All-insert k v m q h.1)
  ]

  pub All-remove : (k : Bytes) (m : List (Bytes × A)) → All Q m → All Q (remove k m)
  unfolding remove
  All-remove k [] h = tt
  All-remove k ((j, w) ∷ m) h = elim (Bool-cases (same j k)) [
    | inl e ↦ rw e h.1
    | inr e ↦ rw e (h.0, All-remove k m h.1)
  ]

  pub All-lookup :
      (k : Bytes) (m : List (Bytes × A)) {v : A} → All Q m → lookup k m ≡ some v → Q (k, v)
  unfolding lookup
  All-lookup k [] h e = cc
  All-lookup k ((j, w) ∷ m) {v} h e = elim (Bool-cases (same j k)) [
    | inr q ↦ All-lookup k m h.1 (rw q at e)
    | inl q ↦
        let found : some w ≡ some v = rw q at e in
        let value : w ≡ v = cc in let key : j ≡ k = same_sound j k q in rw (sym value, sym key) h.0
  ]

module _ {ℓ} {A : Type ℓ} where
  -- How many entries a map has after an insertion and a removal.
  pub length-insert-known :
      (k : Bytes) (v w : A) (m : List (Bytes × A))
      → lookup k m ≡ some w
      → length (insert k v m) ≡ length m
  unfolding lookup insert
  length-insert-known k v w [] h = cc
  length-insert-known k v w ((j, x) ∷ m) h = elim (Bool-cases (same j k)) [
    | inl e ↦ rw e refl
    | inr e ↦ rw e (ap suc (length-insert-known k v w m (rw e at h)))
  ]

  pub length-insert-new :
      (k : Bytes) (v : A) (m : List (Bytes × A))
      → lookup k m ≡ none
      → length (insert k v m) ≡ suc (length m)
  unfolding lookup insert
  length-insert-new k v [] h = refl
  length-insert-new k v ((j, x) ∷ m) h = elim (Bool-cases (same j k)) [
    | inl e ↦ absurd (cc (rw e at h))
    | inr e ↦ rw e (ap suc (length-insert-new k v m (rw e at h)))
  ]

  pub length-remove :
      (k : Bytes) (w : A) (m : List (Bytes × A))
      → lookup k m ≡ some w
      → suc (length (remove k m)) ≡ length m
  unfolding lookup remove
  length-remove k w [] h = cc
  length-remove k w ((j, x) ∷ m) h = elim (Bool-cases (same j k)) [
    | inl e ↦ rw e refl
    | inr e ↦ rw e (ap suc (length-remove k w m (rw e at h)))
  ]
