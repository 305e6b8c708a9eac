-- ===== src/Base/Consume.antt =====
-- A loop that reads a list from the front until a round ends it.
use terp_builder.Base.{ℕ, zero, suc, ◌≤◌, ◌<◌, ◌≡◌, refl, arith, Option, none, some}
use terp_builder.Base.{List, length, inl, inr, ◌⊎◌}

-- What a round says: the loop ends, or goes on in a state with the input that is left.
pub data Round (S R : Type 0) : Type 0 where
  done : R → Round S R
  again : S → List ℕ → Round S R

pub Round-cases :
    {S R : Type 0} (r : Round S R)
    → ((x : R) × (r ≡ done x)) ⊎ ((s : S) × (rest : List ℕ) × (r ≡ again s rest))
Round-cases (done x) = inl (x, refl)
Round-cases (again s rest) = inr (s, rest, refl)

pub done_inj : {S R : Type 0} {x y : R} → ◌≡◌ {A = Round S R} (done x) (done y) → x ≡ y
done_inj h = cc

pub again-rest :
    {S R : Type 0} {s s' : S} {p p' : List ℕ}
    → ◌≡◌ {A = Round S R} (again s p) (again s' p')
    → p ≡ p'
again-rest h = cc

module _ {S R : Type 0} where
  abbrev ended : Round S R → Option R
  ended (done x) = some x
  ended (again s rest) = none

  abbrev continued : (S → List ℕ → Option R) → Round S R → Option R
  continued go (done x) = some x
  continued go (again s rest) = go s rest

  module _ (step : S → List ℕ → Round S R) where
    -- `none` means that the fuel ran out.
    unfoldable pub consume : ℕ → S → List ℕ → Option R
    consume zero s input = ended (step s input)
    consume (suc n) s input = continued (consume n) (step s input)

    -- The length of the input is fuel enough, where every round that goes on takes something.
    unfoldable pub run : S → List ℕ → Option R
    run s input = consume (length input) s input

    abbrev pub Shrinks : Type 0
    Shrinks =
        (s s' : S) (input rest : List ℕ) → step s input ≡ again s' rest → length rest < length input

    consume-done :
        (n : ℕ) (s : S) (input : List ℕ) (x : R)
        → step s input ≡ done x
        → consume n s input ≡ some x
    unfolding consume
    consume-done zero s input x e = rw e
    consume-done (suc n) s input x e = rw e

    pub run-done : (s : S) (input : List ℕ) (x : R) → step s input ≡ done x → run s input ≡ some x
    unfolding run
    run-done s input x e = consume-done (length input) s input x e

    module _ (shrinks : Shrinks) where
      consume-enough :
          (n m : ℕ) (s : S) (input : List ℕ)
          → length input ≤ n
          → length input ≤ m
          → consume n s input ≡ consume m s input
      unfolding consume
      consume-enough zero zero s input h k = refl
      consume-enough zero (suc m) s input h k = elim (Round-cases (step s input)) [
        | inl (x, e) ↦ rw e
        | inr (s', rest, e) ↦ let p = shrinks s s' input rest e in absurd (omega arith)
      ]
      consume-enough (suc n) zero s input h k = elim (Round-cases (step s input)) [
        | inl (x, e) ↦ rw e
        | inr (s', rest, e) ↦ let p = shrinks s s' input rest e in absurd (omega arith)
      ]
      consume-enough (suc n) (suc m) s input h k = elim (Round-cases (step s input)) [
        | inl (x, e) ↦ rw e
        | inr (s', rest, e) ↦
            let p = shrinks s s' input rest e in
            rw e (consume-enough n m s' rest (omega arith) (omega arith))
      ]

      consume-again :
          (n : ℕ) (s s' : S) (input rest : List ℕ)
          → length input ≤ n
          → step s input ≡ again s' rest
          → consume n s input ≡ consume (length rest) s' rest
      unfolding consume
      consume-again zero s s' input rest h e =
          let p = shrinks s s' input rest e in absurd (omega arith)
      consume-again (suc n) s s' input rest h e =
          let p = shrinks s s' input rest e in
          rw e (consume-enough n (length rest) s' rest (omega arith) (omega arith))

      consume_total :
          (n : ℕ) (s : S) (input : List ℕ)
          → length input ≤ n
          → (x : R) × (consume n s input ≡ some x)
      unfolding consume
      consume_total zero s input h = elim (Round-cases (step s input)) [
        | inl (x, e) ↦ (x, rw e)
        | inr (s', rest, e) ↦ let p = shrinks s s' input rest e in absurd (omega arith)
      ]
      consume_total (suc n) s input h = elim (Round-cases (step s input)) [
        | inl (x, e) ↦ (x, rw e)
        | inr (s', rest, e) ↦
            let p = shrinks s s' input rest e in
            let (x, q) = consume_total n s' rest (omega arith) in (x, rw e q)
      ]

      -- The loop always ends.
      pub run_total : (s : S) (input : List ℕ) → (x : R) × (run s input ≡ some x)
      unfolding run
      run_total s input = consume_total (length input) s input (omega arith)

      pub run-again :
          (s s' : S) (input rest : List ℕ)
          → step s input ≡ again s' rest
          → run s input ≡ run s' rest
      unfolding run
      run-again s s' input rest e = consume-again (length input) s s' input rest (omega arith) e

    -- A property of the states that every round keeps gives one of the result.
    consume_inv :
        (P : S → Type 0) (Q : R → Type 0)
        → ((s s' : S) (input rest : List ℕ) → P s → step s input ≡ again s' rest → P s')
        → ((s : S) (input : List ℕ) (x : R) → P s → step s input ≡ done x → Q x)
        → (n : ℕ) (s : S) (input : List ℕ) (x : R) → P s
        → consume n s input ≡ some x
        → Q x
    unfolding consume
    consume_inv P Q keep last zero s input x p e = elim (Round-cases (step s input)) [
      | inl (y, d) ↦ last s input x p (ground (arith, d))
      | inr (s', rest, a) ↦ absurd (ground (arith, a))
    ]
    consume_inv P Q keep last (suc n) s input x p e = elim (Round-cases (step s input)) [
      | inl (y, d) ↦ last s input x p (ground (arith, d))
      | inr (s', rest, a) ↦
          consume_inv P Q keep last n s' rest x (keep s s' input rest p a) (ground (arith, a))
    ]

    pub run_inv :
        (P : S → Type 0) (Q : R → Type 0)
        → ((s s' : S) (input rest : List ℕ) → P s → step s input ≡ again s' rest → P s')
        → ((s : S) (input : List ℕ) (x : R) → P s → step s input ≡ done x → Q x)
        → (s : S) (input : List ℕ) (x : R) → P s
        → run s input ≡ some x
        → Q x
    unfolding run
    run_inv P Q keep last s input x p e = consume_inv P Q keep last (length input) s input x p e
