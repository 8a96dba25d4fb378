-- ===== src/Server/Store/Sends.antt =====
-- How many messages a step of the loop of include/server.hpp sends, along its `do` block.
use paracel.Prelude.{
  ℕ, ◌+◌, ◌≡◌, refl, ◌∙◌, sym, ap, Bool, true, false, Option, none, some, [], ◌∷◌, Str, length,
  length-append, if◌then◌else◌, arith,
}
use paracel.Server.Store.Defs.{Thread, bind_opt, send}

-- a step that does not stop has sent `n` messages more
unfoldable pub Sends : ℕ → Thread → Option Thread → Type 0
Sends n th m = (th' : Thread) → m ≡ some th' → length th'.sent ≡ length th.sent + n

pub Sends-bind :
    {A : Type 0} (n : ℕ) (th : Thread) (m : Option A) (k : A → Option Thread)
    → ((a : A) → m ≡ some a → Sends n th (k a))
    → Sends n th (bind_opt m k)
unfolding Sends
Sends-bind n th none k each th' h = ground arith
Sends-bind n th (some a) k each th' h = each a refl th' h

pub Sends-one : (th t : Thread) (r : Str) → t.sent ≡ th.sent → Sends 1 th (some (send r t))
unfolding Sends
Sends-one th t r same th' h =
    ap length (sym (ap (λ o. elim o [ some x ↦ x.sent | none ↦ [] ]) h))
    ∙ length-append t.sent (r ∷ [])
    ∙ ap (λ l. length l + 1) same

pub Sends-zero : (th t : Thread) → t.sent ≡ th.sent → Sends 0 th (some t)
unfolding Sends
Sends-zero th t same th' h =
    ap length (sym (ap (λ o. elim o [ some x ↦ x.sent | none ↦ [] ]) h))
    ∙ ap length same
    ∙ omega arith

pub Sends-if :
    (n : ℕ) (th : Thread) (b : Bool) (x y : Thread)
    → Sends n th (some x)
    → Sends n th (some y)
    → Sends n th (some (if b then x else y))
unfolding Sends
Sends-if n th true x y hx hy = hx
Sends-if n th false x y hx hy = hy

-- a step that does not stop has sent nothing, and goes on from the same messages
pub keeps-if :
    (th : Thread) (b : Bool) (x y : Option Thread)
    → ((t : Thread) → x ≡ some t → t.sent ≡ th.sent)
    → ((t : Thread) → y ≡ some t → t.sent ≡ th.sent)
    → (t : Thread) → (if b then x else y) ≡ some t
    → t.sent ≡ th.sent
keeps-if th true x y hx hy = hx
keeps-if th false x y hx hy = hy

pub keeps-bind :
    {A : Type 0} (th : Thread) (m : Option A) (k : A → Thread)
    → ((a : A) → (k a).sent ≡ th.sent)
    → (t : Thread) → bind_opt m (λ a. some (k a)) ≡ some t
    → t.sent ≡ th.sent
keeps-bind th none k each t h = ground arith
keeps-bind th (some a) k each t h =
    sym (ap (λ o. elim o [ some x ↦ x.sent | none ↦ [] ]) h) ∙ each a

pub keeps-same : (th t : Thread) → some th ≡ some t → t.sent ≡ th.sent
keeps-same th t h = sym (ap (λ o. elim o [ some x ↦ x.sent | none ↦ [] ]) h)
