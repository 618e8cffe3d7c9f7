-- ===== src/Reader/Parses.antt =====
-- What a successful read over the readers of wincode/src/io says of the bytes that it took.
use mathlib.Core.Path.{subst}
use wincode.Prelude.{
  ℕ, ◌≡◌, refl, sym, ap, ◌∙◌, inl, inr, Bool, true, false, List, [], ◌∷◌, ◌++◌, append_assoc,
  length, length-append, length-take, take, drop, take-append-drop, drop-append, Outcome, ok, err,
  fault, leb-cases, if◌then◌else◌, arith,
}
use wincode.Error.{ReadError, size_limit_read}
use wincode.Reader.{
  Reader, Read, pure, raise, continue, ◌>>=◌, copy_into_slice, take_byte, head_or_zero,
}
use wincode.Reader.View.{
  view, advance, view-advance, IsChecked, IsChecked-advance, advance-zero, advance-advance,
  copy-in_bounds, copy-out_of_bounds,
}

-- What a success took: bytes that stand in a relation to the value, and no others.
abbrev pub Took {ℓ} : {A : Type ℓ} → (A → List ℕ → Type 0) → Reader → A → Reader → Type 0
Took R r a r' =
    (bs : List ℕ) × (rest : List ℕ) × R a bs × (view r ≡ bs ++ rest) × (r' ≡ advance (length bs) r)

pub record Parses {ℓ} {A : Type ℓ} (m : Read A) (R : A → List ℕ → Type 0) : Type ℓ where
  pub at : (r : Reader) → IsChecked r → (a : A) (r' : Reader) → m r ≡ (ok a, r') → Took R r a r'

module _ {ℓ} {A : Type ℓ} (R : A → List ℕ → Type 0) where
  pub Parses-pure : (a : A) → R a [] → Parses (pure a) R
  Parses-pure a h = record {
    at = λ r c b r' e.
        let same : a ≡ b = cc in
        (
          [],
          view r,
          subst (λ x. R x []) same h,
          refl,
          sym (ap (λ p. p.1) e) ∙ sym (advance-zero r),
        );
  }

  pub Parses-raise : (e : ReadError) → Parses (raise e) R
  Parses-raise e = record { at = λ r c a r' h. absurd cc }

  pub Parses-test :
      (b : Bool) {m n : Read A}
      → (b ≡ true → Parses m R)
      → (b ≡ false → Parses n R)
      → Parses (if b then m else n) R
  Parses-test true hm hn = hm refl
  Parses-test false hm hn = hn refl

module _ {ℓ κ} {A : Type ℓ} {B : Type κ} {R : A → List ℕ → Type 0} {T : B → List ℕ → Type 0} where
  pub Parses-bind :
      {m : Read A} (f : A → Read B) (S : A → B → List ℕ → Type 0)
      → Parses m R
      → ((a : A) → Parses (f a) (S a))
      → ((a : A) (b : B) (bs cs : List ℕ) → R a bs → S a b cs → T b (bs ++ cs))
      → Parses (m >>= f) T
  Parses-bind {m} f S hm hf join = record { at = λ r c b r' e. go r c b r' (m r).0 (m r).1 refl e }
    where
      go :
          (r : Reader)
          → IsChecked r
          → (b : B) (r' : Reader) (o : Outcome ReadError A) (q : Reader) → m r ≡ (o, q)
          → continue o f q ≡ (ok b, r')
          → Took T r b r'
      go r c b r' (ok a) q em ef =
          let (bs, rest, ra, v, moved) = hm.at r c a q em in
          let checked : IsChecked q =
            subst IsChecked (sym moved) (IsChecked-advance (length bs) r c) in
          let (cs, rest', sb, v', moved') = (hf a).at q checked b r' ef in
          let after : rest ≡ view q =
            sym (drop-append bs rest)
            ∙ ap (drop (length bs)) (sym v)
            ∙ sym (view-advance (length bs) r)
            ∙ ap view (sym moved) in
          (
            bs ++ cs,
            rest',
            join a b bs cs ra sb,
            v ∙ ap (λ l. bs ++ l) (after ∙ v') ∙ sym (append_assoc bs cs rest'),
            moved'
                ∙ ap (advance (length cs)) moved
                ∙ advance-advance (length bs) (length cs) r
                ∙ ap (λ n. advance n r) (sym (length-append bs cs)),
          )
      go r c b r' (err x) q em ef = absurd cc
      go r c b r' fault q em ef = absurd cc

-- Copying takes the bytes that it gives.
pub Parses-copy : (n : ℕ) → Parses (copy_into_slice n) (λ bs taken. (taken ≡ bs) × (length bs ≡ n))
Parses-copy n = record { at = λ r c bs r' e. by_length r c bs r' e }
  where
    by_length :
        (r : Reader)
        → IsChecked r
        → (bs : List ℕ) (r' : Reader) → copy_into_slice n r ≡ (ok bs, r')
        → Took (λ bs taken. (taken ≡ bs) × (length bs ≡ n)) r bs r'
    by_length r c bs r' e = elim (leb-cases n (length (view r))) [
      | inl (h, _) ↦
          let same = copy-in_bounds n r h in
          let long : length (take n (view r)) ≡ n = length-take n (view r) ∙ omega arith in
          let taken : take n (view r) ≡ bs =
            ok_injective (sym (ap (λ p. p.0) same) ∙ ap (λ p. p.0) e) in
          (
            take n (view r),
            drop n (view r),
            (taken, sym (ap (λ l. length l) taken) ∙ long),
            sym (take-append-drop n (view r)),
            sym (ap (λ p. p.1) e) ∙ ap (λ p. p.1) same ∙ ap (λ k. advance k r) (sym long),
          )
      | inr (h, _) ↦
          let clash : err (size_limit_read n) ≡ ok bs =
            sym (copy-out_of_bounds n r c h) ∙ ap (λ p. p.0) e in
          absurd cc
    ]
      where
        ok_injective :
            {xs ys : List ℕ} → ◌≡◌ {A = Outcome ReadError (List ℕ)} (ok xs) (ok ys) → xs ≡ ys
        ok_injective e = cc

pub Parses-byte : Parses take_byte (λ b taken. taken ≡ b ∷ [])
unfolding take_byte
Parses-byte =
    Parses-bind _ (λ bs b taken. (b ≡ head_or_zero bs) × (taken ≡ [])) (Parses-copy 1)
      (λ bs. Parses-pure _ (head_or_zero bs) (refl, refl)) (λ bs b xs ys h k. single bs b xs ys h k)
  where
    single :
        (bs : List ℕ) (b : ℕ) (xs ys : List ℕ)
        → (xs ≡ bs) × (length bs ≡ 1)
        → (b ≡ head_or_zero bs) × (ys ≡ [])
        → xs ++ ys ≡ b ∷ []
    single [] b xs ys (h, l) k = absurd (omega arith)
    single (x ∷ []) b xs ys (h, l) (k, e) = rw (h, k, e) refl
    single (x ∷ y ∷ bs) b xs ys (h, l) k = absurd (omega arith)
