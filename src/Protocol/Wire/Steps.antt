-- ===== src/Protocol/Wire/Steps.antt =====
-- Chains of `?` that return.
use tmnotify.Base.{◌≡◌, refl, subst, Option, none, some, arith}
use tmnotify.Notification.Ingress.{
  Text, max_title_bytes, max_body_bytes, max_source_id_bytes, max_source_value_bytes, max_cwd_bytes,
  max_metadata_value_bytes, byte_len,
}
use tmnotify.Notification.Ingress
use tmnotify.Protocol.Error.{Result, ok, err, accept, ◌>>=◌}
use tmnotify.Protocol.Wire.{optionally}

-- A step of a chain of `?`: what it returned, and that the rest of the chain returned `b`.
abbrev pub Step : {A B : Type 0} → Result A → (A → Result B) → B → Type 0
Step {A} m rest b = (a : A) × (m ≡ ok a) × (rest a ≡ ok b)

module _ {A B : Type 0} where
  pub bind_ok : (m : Result A) (rest : A → Result B) {b : B} → m >>= rest ≡ ok b → Step m rest b
  bind_ok (err e) rest h = absurd (ground arith)
  bind_ok (ok a) rest h = (a, refl, h)

  pub ingress_bind_ok :
      (m : Ingress.Result A) (rest : A → Ingress.Result B) {b : B}
      → Ingress.◌>>=◌ m rest ≡ Ingress.ok b
      → (a : A) × (m ≡ Ingress.ok a) × (rest a ≡ Ingress.ok b)
  ingress_bind_ok (Ingress.err e) rest h = absurd (ground arith)
  ingress_bind_ok (Ingress.ok a) rest h = (a, refl, h)

pub accept_ok {ℓ} : {A : Type ℓ} (m : Ingress.Result A) {a : A} → accept m ≡ ok a → m ≡ Ingress.ok a
accept_ok (Ingress.ok a) h = cc h
accept_ok (Ingress.err e) h = absurd (ground arith)

pub made {κ} : {A : Type 0} (P : A → Type κ) {a t : A} → Ingress.ok a ≡ Ingress.ok t → P a → P t
made P e h = subst P (cc e) h

-- An optional step keeps what the step keeps.
pub optionally_keeps {κ} :
    {S A : Type 0} (P : S → Type κ) (f : S → A → Ingress.Result S)
    → ((s : S) (a : A) (t : S) → P s → f s a ≡ Ingress.ok t → P t)
    → (o : Option A) (s : S) {t : S} → P s
    → optionally f o s ≡ ok t
    → P t
optionally_keeps P f k none s h e = subst P (cc e) h
optionally_keeps P f k (some a) s h e = k s a _ h (accept_ok (f s a) e)
