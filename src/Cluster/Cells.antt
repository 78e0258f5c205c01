-- ===== src/Cluster/Cells.antt =====
-- The parts of the cluster that do not touch each other: a place in the membership, and a mailbox. What
-- an action does to its own part, and that it leaves the others.
use eoblock.Admin.Requests.{add, remove}
use eoblock.Admin.Spec.{if_present, is_none}
use eoblock.Cluster.{Action, requests, sends, receives, Reply, done, handed}
use eoblock.Cluster.Spec.{View, letter, step, steps}
use eoblock.Device.{HwAddr}
use eoblock.Errors.{eob_inval}
use eoblock.Header.{NodeData}
use eoblock.Message.{Received}
use eoblock.System.{Outcome, ok, err, abort}
use eoblock.Prelude.{
  ℕ, ◌≡◌, refl, sym, ap, ◌∙◌, subst, Bool, true, false, ◌&&◌, ◌||◌, Bool-cases, inl, inr, Option,
  none, some, List, [], ◌∷◌, ltb, ◌==◌, ==_iff, eq→==, if◌then◌else◌,
}

pub data Cell : Type 0 where
  place : ℕ → Cell
  mailbox : ℕ → Cell

-- What is in a cell.
pub data Content : Type 0 where
  datum : Option NodeData → Content
  mail : Outcome Received → Content

abbrev pub content : Cell → View → Content
content (place i) s = datum (s.members i)
content (mailbox b) s = mail (s.boxes b)

-- The cell that an action is about.
abbrev pub cell : Action → Cell
cell (requests (add i n force)) = place i
cell (requests (remove i)) = place i
cell (sends a dat b) = mailbox b
cell (receives b) = mailbox b

abbrev pub same : Cell → Cell → Bool
same (place i) (place j) = i == j
same (mailbox a) (mailbox b) = a == b
same (place i) (mailbox b) = false
same (mailbox a) (place j) = false

same→≡ : (c x : Cell) → same c x ≡ true → c ≡ x
same→≡ (place i) (place j) e = ap place ((==_iff i j).0 e)
same→≡ (mailbox a) (mailbox b) e = ap mailbox ((==_iff a b).0 e)
same→≡ (place i) (mailbox b) e = absurd (cc e)
same→≡ (mailbox a) (place j) e = absurd (cc e)

-- The actions that are about a cell.
abbrev pub only : Cell → List Action → List Action
only c [] = []
only c (a ∷ more) = let rest = only c more in if same c (cell a) then a ∷ rest else rest

-- The replies to them.
abbrev pub heard : Cell → List Action → List Reply → List Reply
heard c [] rs = []
heard c (a ∷ more) [] = []
heard c (a ∷ more) (r ∷ rs) =
    let rest = heard c more rs in if same c (cell a) then r ∷ rest else rest

-- Of a cluster with so many places, whose nodes have these addresses.
module _ (capacity : ℕ) (addr : ℕ → HwAddr) where
  abbrev added : Bool → NodeData → Option NodeData → Reply × Content
  added true n v = (done (ok tt), datum (if_present (some n)))
  added false n v = (done (err eob_inval), datum v)

  -- An action on the content of its cell alone.
  abbrev pub act : Action → Content → Reply × Content
  act (requests (add i n force)) (datum v) = added (ltb i capacity && (force || is_none v)) n v
  act (requests (remove i)) (datum v) = (done (ok tt), datum none)
  act (sends a dat b) (mail o) = (done (ok tt), mail (letter (addr a) dat))
  act (receives b) (mail o) = (handed o, mail o)
  act a x = (done abort, x)

  unfoldable pub acts : List Action → Content → List Reply × Content
  acts [] x = ([], x)
  acts (a ∷ more) x = let p = act a x in let rest = acts more p.1 in (p.0 ∷ rest.0, rest.1)

  act-step :
      (a : Action) (s : View)
      → act a (content (cell a) s)
        ≡ ((step capacity addr a s).0, content (cell a) (step capacity addr a s).1)
  act-step (requests (add i n force)) s =
      elim (Bool-cases (ltb i capacity && (force || is_none (s.members i)))) [
        | inl let_in ↦ rw let_in (rw (eq→== i i refl) refl)
        | inr refused ↦ rw refused refl
      ]
  act-step (requests (remove i)) s = rw (eq→== i i refl) refl
  act-step (sends a dat b) s = rw (eq→== b b refl) refl
  act-step (receives b) s = refl

  elsewhere :
      (c : Cell) (a : Action) (s : View)
      → same c (cell a) ≡ false
      → content c (step capacity addr a s).1 ≡ content c s
  elsewhere (place j) (requests (add i n force)) s other =
      elim (Bool-cases (ltb i capacity && (force || is_none (s.members i)))) [
        | inl let_in ↦ rw let_in (rw other refl)
        | inr refused ↦ rw refused refl
      ]
  elsewhere (place j) (requests (remove i)) s other = rw other refl
  elsewhere (place j) (sends a dat b) s other = refl
  elsewhere (place j) (receives b) s other = refl
  elsewhere (mailbox j) (requests (add i n force)) s other = refl
  elsewhere (mailbox j) (requests (remove i)) s other = refl
  elsewhere (mailbox j) (sends a dat b) s other = rw other refl
  elsewhere (mailbox j) (receives b) s other = refl

  -- The content of a cell, and the replies that are about it, come of the actions about it alone.
  pub steps-acts :
      (c : Cell) (actions : List Action) (s : View)
      → (
        heard c actions (steps capacity addr actions s).0,
        content c (steps capacity addr actions s).1,
      )
        ≡ acts (only c actions) (content c s)
  unfolding steps acts
  steps-acts c [] s = refl
  steps-acts c (a ∷ more) s =
      let p = step capacity addr a s in
      elim (Bool-cases (same c (cell a))) [
        | inl here ↦
            let e : act a (content c s) ≡ (p.0, content c p.1) =
              subst (λ x. act a (content x s) ≡ (p.0, content x p.1)) (sym (same→≡ c (cell a) here))
                (act-step a s) in
            rw here (rw e (ap (λ r. (p.0 ∷ r.0, r.1)) (steps-acts c more p.1)))
        | inr other ↦
            rw other (steps-acts c more p.1 ∙ ap (acts (only c more)) (elsewhere c a s other))
      ]
