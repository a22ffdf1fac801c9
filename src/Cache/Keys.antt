-- ===== src/Cache/Keys.antt =====
-- `WorkKey` and its derived equality.
use aether_mesh.Base.{
  ◌==◌, ◌≡◌, ◌↔◌, refl, ap, Bool, true, false, ◌&&◌, List, Option, none, some, arith,
}
use aether_mesh.Base.Assoc.{Eq}
use aether_mesh.Text.{Text, text_eq, text_eq_iff}
use aether_mesh.Task.{DataId}

pub record WorkKey : Type 0 where
  pub kind : Text
  pub payload : DataId
  pub program : Option DataId
  pub inputs : List DataId

abbrev optional_eq : Option DataId → Option DataId → Bool
optional_eq none none = true
optional_eq none (some b) = false
optional_eq (some a) none = false
optional_eq (some a) (some b) = a == b

optional_eq_iff : (a b : Option DataId) → (optional_eq a b ≡ true) ↔ (a ≡ b)
optional_eq_iff none none = (λ h. refl, λ h. refl)
optional_eq_iff none (some b) = (λ h. ground arith, λ h. ground arith)
optional_eq_iff (some a) none = (λ h. ground arith, λ h. ground arith)
optional_eq_iff (some a) (some b) = (λ h. ap some (ground arith), λ h. ground arith)

-- Two lists of ids are compared as two texts are.
abbrev work_eq : WorkKey → WorkKey → Bool
work_eq a b =
    text_eq a.kind b.kind
    && a.payload == b.payload
    && optional_eq a.program b.program
    && text_eq a.inputs b.inputs

WorkKey-path :
    (a b : WorkKey)
    → a.kind ≡ b.kind
    → a.payload ≡ b.payload
    → a.program ≡ b.program
    → a.inputs ≡ b.inputs
    → a ≡ b
WorkKey-path a b k p m n = λ i. record { kind = k i; payload = p i; program = m i; inputs = n i }

pub work_eq_iff : (a b : WorkKey) → (work_eq a b ≡ true) ↔ (a ≡ b)
work_eq_iff a b = (
  λ h.
      WorkKey-path a b ((text_eq_iff a.kind b.kind).0 (ground arith)) (ground arith)
        ((optional_eq_iff a.program b.program).0 (ground arith))
        ((text_eq_iff a.inputs b.inputs).0 (ground arith)),
  λ h.
      let kinds = (text_eq_iff a.kind b.kind).1 (ap (λ (x : WorkKey). x.kind) h) in
      let payloads = ap (λ (x : WorkKey). x.payload) h in
      let programs = (optional_eq_iff a.program b.program).1 (ap (λ (x : WorkKey). x.program) h) in
      let lists = (text_eq_iff a.inputs b.inputs).1 (ap (λ (x : WorkKey). x.inputs) h) in
      ground arith,
)

instance abbrev pub work_key_eq : Eq WorkKey
work_key_eq = record { beq = work_eq; beq_iff = work_eq_iff }
