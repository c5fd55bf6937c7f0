-- ===== src/AddressBook/Nodes/Sort/Perms.antt =====
-- What a rearrangement of a list of addresses keeps.
use mathlib.Core.List.{Permᴰ}
use sysopy_all.Base.{ℕ, suc, ◌≡◌, refl, sym, ap, ◌∙◌, subst, List, length}
use sysopy_all.AddressBook.Nodes.Links.{Every, Absent, Nodup}

pub Every-permᴰ : (P : ℕ → Type 0) {xs ys : List ℕ} → Permᴰ xs ys → Every P xs → Every P ys
Every-permᴰ P Permᴰ.nil w = tt
Every-permᴰ P (Permᴰ.cons e p) (w, ws) = (subst P e w, Every-permᴰ P p ws)
Every-permᴰ P (Permᴰ.swap e f) (v, (w, ws)) = (subst P f w, (subst P e v, ws))
Every-permᴰ P (Permᴰ.trans p q) w = Every-permᴰ P q (Every-permᴰ P p w)

pub length-permᴰ : {xs ys : List ℕ} → Permᴰ xs ys → length xs ≡ length ys
length-permᴰ Permᴰ.nil = refl
length-permᴰ (Permᴰ.cons e p) = ap suc (length-permᴰ p)
length-permᴰ (Permᴰ.swap e f) = refl
length-permᴰ (Permᴰ.trans p q) = length-permᴰ p ∙ length-permᴰ q

pub Nodup-permᴰ : {xs ys : List ℕ} → Permᴰ xs ys → Nodup xs → Nodup ys
Nodup-permᴰ Permᴰ.nil w = tt
Nodup-permᴰ (Permᴰ.cons {l₂ = l} e p) (w, ws) =
    (subst (λ i. Absent i l) e (Every-permᴰ _ p w), Nodup-permᴰ p ws)
Nodup-permᴰ (Permᴰ.swap {l} e f) ((ab, al), (bl, ws)) = (
  ((λ p. ab (e ∙ sym p ∙ sym f)), subst (λ i. Absent i l) f bl),
  (subst (λ i. Absent i l) e al, ws),
)
Nodup-permᴰ (Permᴰ.trans p q) w = Nodup-permᴰ q (Nodup-permᴰ p w)
