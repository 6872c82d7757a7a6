-- ===== src/Migration/Effects/Rules.antt =====
-- Inversion of a sequence of two calls.
use fit_go.Base.{◌≡◌, refl, subst, Result, ok, err}
use fit_go.Migration.Errors.{Error}
use fit_go.Migration.Effects.{M, World, ◌>>=◌, continue}

continue-ok :
    {A B : Type 0} (res : Result Error A) (w : World) (f : A → M B) (b : B)
    → (continue res w f).0 ≡ ok b
    → (a : A) × (res ≡ ok a) × ((f a w).0 ≡ ok b) × (continue res w f ≡ f a w)
continue-ok (ok a) w f b h = (a, refl, h, refl)
continue-ok (err e) w f b h = cc

-- A sequence that succeeds has a first part that succeeds.
pub bind-ok :
    {A B : Type 0} (m : M A) (f : A → M B) (w : World) (b : B)
    → ((m >>= f) w).0 ≡ ok b
    → (a : A) × ((m w).0 ≡ ok a) × ((f a (m w).1).0 ≡ ok b) × ((m >>= f) w ≡ f a (m w).1)
unfolding ◌>>=◌
bind-ok m f w b h = continue-ok (m w).0 (m w).1 f b h

continue-any {ℓ} :
    {A B : Type 0} (P : Result Error B × World → Type ℓ) (res : Result Error A) (w : World)
    (f : A → M B)
    → ((e : Error) → res ≡ err e → P (err e, w))
    → ((a : A) → res ≡ ok a → P (f a w))
    → P (continue res w f)
continue-any P (ok a) w f failed done = done a refl
continue-any P (err e) w f failed done = failed e refl

-- To prove a fact of a sequence: prove it where the first part fails, and after it succeeded.
pub bind-any {ℓ} :
    {A B : Type 0} (P : Result Error B × World → Type ℓ) (m : M A) (f : A → M B) (w : World)
    → ((e : Error) → (m w).0 ≡ err e → P (err e, (m w).1))
    → ((a : A) → (m w).0 ≡ ok a → P (f a (m w).1))
    → P ((m >>= f) w)
unfolding ◌>>=◌
bind-any P m f w failed done = continue-any P (m w).0 (m w).1 f failed done

-- What holds of the result and the world of a call that succeeds.
abbrev pub IfOk : {B : Type 0} → (B → World → Type 0) → Result Error B × World → Type 0
IfOk Q (ok b, w) = Q b w
IfOk Q (err e, w) = Unit

pub IfOk-ok :
    {B : Type 0} (Q : B → World → Type 0) (x : Result Error B × World) (b : B)
    → IfOk Q x
    → x.0 ≡ ok b
    → Q b x.1
IfOk-ok Q (ok c, w) b h e = let same : c ≡ b = cc in subst (λ d. Q d w) same h
IfOk-ok Q (err c, w) b h e = absurd (cc)

pub bind-IfOk :
    {A B : Type 0} (Q : B → World → Type 0) (m : M A) (f : A → M B) (w : World)
    → ((a : A) → (m w).0 ≡ ok a → IfOk Q (f a (m w).1))
    → IfOk Q ((m >>= f) w)
bind-IfOk Q m f w done = bind-any (IfOk Q) m f w (λ e failed. tt) done
