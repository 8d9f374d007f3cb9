-- ===== src/Delivery/Accept/Recipients.antt =====
-- `explodeRecipients` (delivery/app/send/accept.go) against its description: the recipients in order,
-- each with its role, if no two have the same address, and an error otherwise.
use send_flow_backend.Prelude.{
  String, ◌≡◌, refl, sym, ap, ◌∙◌, subst, ◌↔◌, inl, inr, Bool, true, false, List, [], ◌∷◌, ◌++◌,
  map, append-nil, append_assoc, none, some, Bool-cases, Option-cases, find?,
}
use send_flow_backend.Prelude.Text.{eq_iff}
use send_flow_backend.Strings.{trim_space}
use send_flow_backend.Effect.{Result, ok, err}
use send_flow_backend.Delivery.Accept.Data.{RecipientTarget, Target, AcceptPorts}
use send_flow_backend.Delivery.Accept.Validate.{and_check, same_email, explode, explode_recipients}
use mathlib.Core.List.{
  Mem, Nodup, Nodup-append, Nodup-cons, Nodup-nil, mem-cons, mem-cons_self, mem-cons_of_mem,
  not-mem-nil, map-append,
}
use mathlib.Core.Logic.Or
use mathlib.Core.HLevel.{⊥_prop}

Nodup-snoc : {A : Type 0} (l : List A) (e : A) → Nodup l → (Mem e l → ⊥) → Nodup (l ++ e ∷ [])
Nodup-snoc l e n new = Nodup-append.1 (
  n,
  Nodup-cons.1 (not-mem-nil, Nodup-nil),
  λ a m k. Or.elim ⊥_prop (mem-cons.0 k) (λ h. new (subst (λ x. Mem x l) h m)) not-mem-nil,
)

Nodup-apart : {A : Type 0} (l m : List A) (e : A) → Nodup (l ++ e ∷ m) → Mem e l → ⊥
Nodup-apart l m e n k = ((Nodup-append {l₁ = l} {l₂ = e ∷ m}).0 n).2 e k mem-cons_self

ok_same : {A : Type 0} {a b : A} → ok a ≡ ok b → a ≡ b
ok_same h = cc

pub check_ok :
    {A B : Type 0} (r : Result A) (f : A → Result B) {b : B}
    → and_check r f ≡ ok b
    → (a : A) × (r ≡ ok a) × (f a ≡ ok b)
check_ok (ok a) f h = (a, refl, h)
check_ok (err e) f h = absurd cc

module _ (p : AcceptPorts) where
  -- The address as recipients are compared.
  abbrev pub address : Target → String
  address t = p.to_lower (trim_space t.recipient.email)

  abbrev pub tagged : String → List RecipientTarget → List Target
  tagged role l = map (λ r. record { recipient = r; role = role }) l

  address_new :
      (e : String) (ts : List Target)
      → find? (same_email p e) ts ≡ none
      → Mem e (map address ts)
      → ⊥
  address_new e [] h m = not-mem-nil m
  address_new e (t ∷ ts) h m = elim (Bool-cases (same_email p e t)) [
    | inl k ↦ cc (rw k at h)
    | inr k ↦
        Or.elim ⊥_prop (mem-cons.0 m) (λ same. differ k ((eq_iff (address t) e).1 (sym same)))
          (address_new e ts (rw k at h))
  ]
    where
      differ : {b : Bool} → b ≡ false → b ≡ true → ⊥
      differ x y = cc

  address_old :
      (e : String) (ts : List Target) {t : Target}
      → find? (same_email p e) ts ≡ some t
      → Mem e (map address ts)
  address_old e [] h = absurd cc
  address_old e (t ∷ ts) h = elim (Bool-cases (same_email p e t)) [
    | inl k ↦ subst (λ x. Mem x (map address (t ∷ ts))) ((eq_iff (address t) e).0 k) mem-cons_self
    | inr k ↦ mem-cons_of_mem (address t) (address_old e ts (rw k at h))
  ]

  -- The description of one of the three lists, after the recipients that are there already.
  abbrev Tells : String → List RecipientTarget → List Target → List Target → Type 0
  Tells role l ts out = (out ≡ ts ++ tagged role l) × Nodup (map address (ts ++ tagged role l))

  explode_iff :
      (role : String) (l : List RecipientTarget) (ts out : List Target)
      → Nodup (map address ts)
      → (explode p role l ts ≡ ok out) ↔ Tells role l ts out
  unfolding explode
  explode_iff role [] ts out n = (
    λ h. (
      sym (ok_same h) ∙ sym (append-nil ts),
      subst (λ x. Nodup (map address x)) (sym (append-nil ts)) n,
    ),
    λ h. ap (λ x. ok x) (sym (h.0 ∙ append-nil ts)),
  )
  explode_iff role (r ∷ rest) ts out n = elim (Option-cases (find? (same_email p (address t)) ts)) [
    | inl new ↦
        rw (new, ← append_assoc ts (t ∷ []) (tagged role rest))
          (explode_iff role rest (ts ++ t ∷ []) out (
            subst (λ l. Nodup l) (sym (map-append address ts (t ∷ [])))
              (Nodup-snoc (map address ts) (address t) n (address_new (address t) ts new))))
    | inr (first, old) ↦ rw old (
      λ h. absurd cc,
      λ h. absurd (
          Nodup-apart (map address ts) (map address (tagged role rest)) (address t)
            (subst (λ l. Nodup l) (map-append address ts (t ∷ tagged role rest)) h.1)
            (address_old (address t) ts old)),
    )
  ]
    where
      t : Target
      t = record { recipient = r; role = role }

  Nodup-front : (l m : List Target) → Nodup (map address (l ++ m)) → Nodup (map address l)
  Nodup-front l m n =
      ((Nodup-append {l₁ = map address l} {l₂ = map address m}).0
        (subst (λ x. Nodup x) (map-append address l m) n)).0

  explodes :
      (role : String) (l : List RecipientTarget) (ts : List Target)
      → Nodup (map address (ts ++ tagged role l))
      → explode p role l ts ≡ ok (ts ++ tagged role l)
  explodes role l ts n =
      (explode_iff role l ts (ts ++ tagged role l) (Nodup-front ts (tagged role l) n)).1 (refl, n)

  exploded :
      (role : String) (l : List RecipientTarget) (ts out : List Target)
      → Nodup (map address ts)
      → explode p role l ts ≡ ok out
      → (out ≡ ts ++ tagged role l) × Nodup (map address out)
  exploded role l ts out n h =
      let (e, k) = (explode_iff role l ts out n).0 h in
      (e, subst (λ x. Nodup (map address x)) (sym e) k)

  -- `explodeRecipients` answers a list exactly when that list is the recipients of the three lists in
  -- order, each with its role, and no two of them have the same trimmed address in lower case.
  pub explode_recipients_iff :
      (to copied hidden : List RecipientTarget) (out : List Target)
      → (explode_recipients p to copied hidden ≡ ok out) ↔ (
          (out ≡ (tagged "to" to ++ tagged "cc" copied) ++ tagged "bcc" hidden)
          × Nodup (map address out))
  unfolding explode_recipients
  explode_recipients_iff to copied hidden out = (
    λ h.
        let (a, ha, h1) = check_ok (explode p "to" to []) _ h in
        let (b, hb, h2) = check_ok (explode p "cc" copied a) _ h1 in
        let (ea, na) = exploded "to" to [] a Nodup-nil ha in
        let (eb, nb) = exploded "cc" copied a b na hb in
        let (e, n) = exploded "bcc" hidden b out nb h2 in
        (e ∙ ap (λ x. x ++ tagged "bcc" hidden) (eb ∙ ap (λ x. x ++ tagged "cc" copied) ea), n),
    λ (e, n).
        let all = subst (λ x. Nodup (map address x)) e n in
        let two = Nodup-front (tagged "to" to ++ tagged "cc" copied) (tagged "bcc" hidden) all in
        rw (
          explodes "to" to [] (Nodup-front (tagged "to" to) (tagged "cc" copied) two),
          explodes "cc" copied (tagged "to" to) two,
          explodes "bcc" hidden (tagged "to" to ++ tagged "cc" copied) all,
          e,
        ),
  )
