-- ===== src/Webhook/Delivered.antt =====
-- Finding the link of a delivery, before and after its payment is applied.
use recoup_ai.Base.{
  ◌≡◌, refl, sym, ◌∙◌, ap, ◌⊎◌, inl, inr, true, false, none, some, List, [], ◌∷◌, String, ◌=s=◌,
  map, contains, Unique, Option-cases, arith, eq_iff, Bool-cases,
}
use text.Mathlib.TextPositions.{eq_refl}
use recoup_ai.Executor.Sessions.{LiveLink, LiveSession, find_in, find_link, mark_paid}
use recoup_ai.Executor.Stored.{ArmDir, mark_link_paid, map_option}
use recoup_ai.Webhook.{listed, sessions, write_arm}

-- The link that `find_in` returns, marked.
find_in-mark_paid :
    (k : String) (links : List LiveLink) (l : LiveLink)
    → find_in k links ≡ some l
    → find_in k (mark_paid k links) ≡ some (record l { status = "paid" })
unfolding find_in mark_paid
find_in-mark_paid k [] l h = cc
find_in-mark_paid k (x ∷ xs) l h = elim (Bool-cases (x.payment_link_id =s= k)) [
  | inl q ↦
      let e : some x ≡ some l = rw q at h in
      rw (q, q) (ap (map_option {A = LiveLink} (λ y. record y { status = "paid" })) e)
  | inr q ↦ rw (q, q) (find_in-mark_paid k xs l (rw q at h))
]

nothing_found {ℓ} :
    {A : Type ℓ} (k : String) (y : (String × ArmDir) × (LiveSession × LiveLink))
    → find_link (sessions []) k ≡ some y
    → A
unfolding sessions find_link
nothing_found k y h = cc

miss :
    (x : String × ArmDir) (s : LiveSession) (rest : List ((String × ArmDir) × LiveSession))
    (k : String)
    → find_in k s.links ≡ none
    → find_link ((x, s) ∷ rest) k ≡ find_link rest k
unfolding find_link
miss x s rest k h = rw (find_link, h) refl

hit :
    (x : String × ArmDir) (s : LiveSession) (l : LiveLink)
    (rest : List ((String × ArmDir) × LiveSession)) (k : String)
    → find_in k s.links ≡ some l
    → find_link ((x, s) ∷ rest) k ≡ some (x, (s, l))
unfolding find_link
hit x s l rest k h = rw (find_link, h) refl

session-cons :
    (p : String) (d : ArmDir) (s : LiveSession) (rest : List (String × ArmDir))
    → d.session ≡ some s
    → sessions ((p, d) ∷ rest) ≡ ((p, d), s) ∷ sessions rest
unfolding sessions
session-cons p d s rest e = ap (λ o. listed (p, d) o (sessions rest)) e

-- An arm that has no link of this id.
Passes : ArmDir → String → Type 0
Passes d k =
    (d.session ≡ none) ⊎ ((s : LiveSession) × (d.session ≡ some s) × (find_in k s.links ≡ none))

Passes_lem :
    (p : String) (d : ArmDir) (k : String) (rest : List (String × ArmDir))
    → Passes d k
    → find_link (sessions ((p, d) ∷ rest)) k ≡ find_link (sessions rest) k
unfolding sessions find_link Passes
Passes_lem p d k rest (inl e) = ap (λ o. find_link (listed (p, d) o (sessions rest)) k) e
Passes_lem p d k rest (inr (s, e, n)) =
    ap (λ x. find_link x k) (session-cons p d s rest e) ∙ miss (p, d) s (sessions rest) k n

-- An arm that has one.
record Holds (d : ArmDir) (k : String) (s : LiveSession) (l : LiveLink) : Type 0 where
  session : d.session ≡ some s
  link : find_in k s.links ≡ some l

Holds_lem :
    (p : String) (d : ArmDir) (k : String) (rest : List (String × ArmDir)) (s : LiveSession)
    (l : LiveLink)
    → Holds d k s l
    → find_link (sessions ((p, d) ∷ rest)) k ≡ some ((p, d), (s, l))
Holds_lem p d k rest s l h =
    ap (λ x. find_link x k) (session-cons p d s rest h.session)
    ∙ hit (p, d) s l (sessions rest) k h.link

-- What an arm's file of links says of one id.
arm-cases :
    (d : ArmDir) (k : String) → Passes d k ⊎ ((s : LiveSession) × (l : LiveLink) × Holds d k s l)
unfolding Passes
arm-cases d k = elim (Option-cases d.session) [
  | inl e ↦ inl (inl e)
  | inr (s, e) ↦ elim (Option-cases (find_in k s.links)) [
    | inl f ↦ inl (inr (s, e, f))
    | inr (l, f) ↦ inr (s, l, record { session = e; link = f })
  ]
]

-- Where a link was found: the arm is on disk, and its file names the link.
record IsLocated (runs : List (String × ArmDir)) (k path : String) (d : ArmDir) (s : LiveSession)
    (l : LiveLink) : Type 0 where
  pub on_disk : contains path (map (λ x. x.0) runs) ≡ true
  pub holds : Holds d k s l

pub some-injective {ℓ} : {A : Type ℓ} (a b : A) → some a ≡ some b → a ≡ b
some-injective a b h = cc

located :
    (runs : List (String × ArmDir)) (k path : String) (d : ArmDir) (s : LiveSession) (l : LiveLink)
    → find_link (sessions runs) k ≡ some ((path, d), (s, l))
    → IsLocated runs k path d s l
located [] k path d s l h = nothing_found k _ h
located ((p, e) ∷ rest) k path d s l h = elim (arm-cases e k) [
  | inl q ↦
      let i = located rest k path d s l (sym (Passes_lem p e k rest q) ∙ h) in
      record { on_disk = ground (arith, i.on_disk); holds = i.holds }
  | inr (s', l', q) ↦
      let y = some-injective _ _ (sym (Holds_lem p e k rest s' l' q) ∙ h) in
      record {
        on_disk = rw (ap (λ x. x.0.0) y) (ground (arith, eq_refl path));
        holds = record {
          session =
              ap (λ x. x.session) (sym (ap (λ x. x.0.1) y)) ∙ q.session ∙ ap (λ x. some x.1.0) y;
          link = ap (λ x. find_in k x.1.0.links) (sym y) ∙ q.link ∙ ap (λ x. some x.1.1) y;
        };
      }
]

-- The files of an arm whose link has been paid.
settles :
    (k : String) (d after : ArmDir) (s : LiveSession) (l : LiveLink)
    → Holds d k s l
    → after.session ≡ map_option (mark_link_paid k) d.session
    → Holds after k (mark_link_paid k s) (record l { status = "paid" })
unfolding mark_link_paid
settles k d after s l h e = record {
  session = e ∙ ap (map_option (mark_link_paid k)) h.session;
  link = find_in-mark_paid k s.links l h.link;
}

pub write_arm-here :
    (path p : String) (after x : ArmDir) (rest : List (String × ArmDir))
    → (p =s= path) ≡ true
    → write_arm path after ((p, x) ∷ rest) ≡ (p, after) ∷ rest
unfolding write_arm
write_arm-here path p after x rest h = rw h refl

pub write_arm-other :
    (path p : String) (after x : ArmDir) (rest : List (String × ArmDir))
    → (p =s= path) ≡ false
    → write_arm path after ((p, x) ∷ rest) ≡ (p, x) ∷ write_arm path after rest
unfolding write_arm
write_arm-other path p after x rest h = rw h refl

-- A link is found again, at its path, once its arm has the files that a payment leaves.
pub find_link-again :
    (runs : List (String × ArmDir)) (k path : String) (d after : ArmDir) (s : LiveSession)
    (l : LiveLink)
    → Unique (map (λ x. x.0) runs)
    → find_link (sessions runs) k ≡ some ((path, d), (s, l))
    → after.session ≡ map_option (mark_link_paid k) d.session
    → find_link (sessions (write_arm path after runs)) k
      ≡ some ((path, after), (mark_link_paid k s, record l { status = "paid" }))
find_link-again [] k path d after s l u h e = nothing_found k _ h
find_link-again ((p, x) ∷ rest) k path d after s l u h e = elim (arm-cases x k) [
  | inl q ↦
      let h' = sym (Passes_lem p x k rest q) ∙ h in
      let i = located rest k path d s l h' in
      let other : (p =s= path) ≡ false = ground (arith, i.on_disk, u.0, eq_iff p path) in
      ap (λ r. find_link (sessions r) k) (write_arm-other path p after x rest other)
      ∙ Passes_lem p x k (write_arm path after rest) q
      ∙ find_link-again rest k path d after s l u.1 h' e
  | inr (s', l', q) ↦
      let y = some-injective _ _ (sym (Holds_lem p x k rest s' l' q) ∙ h) in
      let same : p ≡ path = ap (λ z. z.0.0) y in
      let i = located ((p, x) ∷ rest) k path d s l h in
      ap (λ r. find_link (sessions r) k)
        (write_arm-here path p after x rest (ap (λ z. p =s= z) (sym same) ∙ eq_refl p))
      ∙ Holds_lem p after k rest (mark_link_paid k s) (record l { status = "paid" })
          (settles k d after s l i.holds e)
      ∙ ap (λ z. some ((z, after), (mark_link_paid k s, record l { status = "paid" }))) same
]
