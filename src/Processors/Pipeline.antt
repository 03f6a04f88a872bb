-- ===== src/Processors/Pipeline.antt =====
-- What the processors that separate audio in segments promise (segmented_inference.py and
-- mdx23c_vocals.py): a pipeline of three queues of headers, and the steps that it may take.
pub mod Held
use karaoke_anything.Prelude.{
  ◌≡◌, sym, ap, ◌∙◌, subst, List, [], ◌∷◌, ◌++◌, append-nil, append_assoc,
}
use mathlib.Core.List.{Sublist, nil-sublist, sublist-append_left, sublist-append_right}
use mathlib.Core.List.Sublist
use karaoke_anything.Kany.{Bytes}

-- finished, being separated, collected; each oldest first
pub record Pipeline : Type 0 where
  pub done : List Bytes
  pub busy : List Bytes
  pub waiting : List Bytes

abbrev pub contents : Pipeline → List Bytes
contents p = p.done ++ (p.busy ++ p.waiting)

-- A step takes in the headers `ins`, and sends out the headers `outs`.
pub data Step (p : Pipeline) (ins outs : List Bytes) (q : Pipeline) : Type 0 where
  accepts :
      (h : Bytes)
      → ins ≡ h ∷ []
      → outs ≡ []
      → q ≡ record p { waiting = p.waiting ++ h ∷ [] }
      → Step p ins outs q
  refuses : (h : Bytes) → ins ≡ h ∷ [] → outs ≡ [] → q ≡ p → Step p ins outs q
  drops :
      (gone kept : List Bytes)
      → p.waiting ≡ gone ++ kept
      → ins ≡ []
      → outs ≡ []
      → q ≡ record p { waiting = kept }
      → Step p ins outs q
  starts :
      (taken kept : List Bytes)
      → p.busy ≡ []
      → p.waiting ≡ taken ++ kept
      → ins ≡ []
      → outs ≡ []
      → q ≡ record p { busy = taken; waiting = kept }
      → Step p ins outs q
  finishes :
      ins ≡ [] → outs ≡ [] → q ≡ record p { done = p.done ++ p.busy; busy = [] } → Step p ins outs q
  loses : ins ≡ [] → outs ≡ [] → q ≡ record p { busy = [] } → Step p ins outs q
  emits :
      (kept : List Bytes)
      → p.done ≡ outs ++ kept
      → ins ≡ []
      → q ≡ record p { done = kept }
      → Step p ins outs q
  clears :
      ins ≡ [] → outs ≡ [] → q ≡ record { done = []; busy = []; waiting = [] } → Step p ins outs q

pub data Run (p : Pipeline) : List Bytes → List Bytes → Pipeline → Type 0 where
  stays : Run p [] [] p
  goes :
      {q r : Pipeline} {ins outs more_ins more_outs : List Bytes}
      → Run p ins outs q
      → Step q more_ins more_outs r
      → Run p (ins ++ more_ins) (outs ++ more_outs) r

-- nothing is repeated or overtaken
abbrev pub InOrder : Pipeline → List Bytes → List Bytes → Pipeline → Type 0
InOrder p ins outs q = Sublist (outs ++ contents q) (contents p ++ ins)

abbrev same_list : {xs ys : List Bytes} → xs ≡ ys → Sublist xs ys
same_list {xs} e = subst (Sublist xs) e (Sublist.refl xs)

Step-InOrder : {p q : Pipeline} {ins outs : List Bytes} → Step p ins outs q → InOrder p ins outs q
Step-InOrder {p} (accepts h i o e) =
    rw (i, o, e)
      (same_list (
        ap (λ l. p.done ++ l) (sym (append_assoc p.busy p.waiting (h ∷ [])))
        ∙ sym (append_assoc p.done (p.busy ++ p.waiting) (h ∷ []))))
Step-InOrder {p} (refuses h i o e) = rw (i, o, e) (sublist-append_left (contents p) (h ∷ []))
Step-InOrder {p} (drops gone kept w i o e) =
    rw (i, o, e, w, append-nil)
      (Sublist.append (Sublist.refl p.done)
        (Sublist.append (Sublist.refl p.busy) (sublist-append_right gone kept)))
Step-InOrder {p} (starts taken kept b w i o e) = rw (i, o, e, b, w, append-nil) (Sublist.refl _)
Step-InOrder {p} (finishes i o e) =
    rw (i, o, e, append-nil) (same_list (append_assoc p.done p.busy p.waiting))
Step-InOrder {p} (loses i o e) =
    rw (i, o, e, append-nil)
      (Sublist.append (Sublist.refl p.done) (sublist-append_right p.busy p.waiting))
Step-InOrder {p} {outs = outs} (emits kept d i e) =
    rw (i, e, d, append-nil) (same_list (sym (append_assoc outs kept (p.busy ++ p.waiting))))
Step-InOrder {p} (clears i o e) = rw (i, o, e) (nil-sublist _)

-- Over any steps: what was sent out, followed by what the pipeline still holds, is what it held at
-- first, followed by what was taken in, in the same order, with parts left out.
pub Run-InOrder : {p q : Pipeline} {ins outs : List Bytes} → Run p ins outs q → InOrder p ins outs q
Run-InOrder {p} stays = same_list (sym (append-nil (contents p)))
Run-InOrder {p}
      (goes {q = q} {r = r} {ins = ins} {outs = outs} {more_ins = is} {more_outs = os} run step) =
    subst (Sublist ((outs ++ os) ++ contents r)) (append_assoc (contents p) ins is) (
      subst (λ l. Sublist l ((contents p ++ ins) ++ is)) (sym (append_assoc outs os (contents r)))
        (Sublist.trans (Sublist.append (Sublist.refl outs) (Step-InOrder step)) (
          subst (λ l. Sublist l ((contents p ++ ins) ++ is)) (append_assoc outs (contents q) is)
            (Sublist.append (Run-InOrder run) (Sublist.refl is)))))

pub Run-trans :
    {p q r : Pipeline} {ins outs more_ins more_outs : List Bytes}
    → Run p ins outs q
    → Run q more_ins more_outs r
    → Run p (ins ++ more_ins) (outs ++ more_outs) r
Run-trans {p} {ins = ins} {outs = outs} first stays = rw (append-nil ins, append-nil outs) first
Run-trans {p} {ins = ins} {outs = outs} first
      (goes {r = r} {ins = is} {outs = os} {more_ins = js} {more_outs = ps} run step) =
    subst (λ l. Run p l (outs ++ (os ++ ps)) r) (append_assoc ins is js)
      (subst (λ l. Run p ((ins ++ is) ++ js) l r) (append_assoc outs os ps)
        (goes (Run-trans first run) step))

-- one step alone
pub Step-Run : {p q : Pipeline} {ins outs : List Bytes} → Step p ins outs q → Run p ins outs q
Step-Run step = goes stays step
