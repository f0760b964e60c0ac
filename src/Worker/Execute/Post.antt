-- ===== src/Worker/Execute/Post.antt =====
-- Conditions on an effectful function of worker.rs, and the rules by which they chain.
use ctfdpp.Base.{◌≡◌, refl, Bool, true, false, Option, none, some}
use ctfdpp.Base.Keyed.{pair_eq}
use ctfdpp.Runtime.{Env}
use ctfdpp.Worker.Events.{Result, ok, error}
use ctfdpp.Worker.Effects.{
  bind_result, Outside, World, M, ◌>>=◌, ◌>>◌, return, bail_if, or_bail, ask,
}

-- `Q` holds of the answer and the world after a success, `E` of the world after an error.
abbrev pub PostOf :
    {A : Type 0} → (A → World → Type 0) → (World → Type 0) → World × Result A → Type 0
PostOf Q E (w, ok a) = Q a w
PostOf Q E (w, error text) = E w

pub record Post {A : Type 0} (Q : A → World → Type 0) (E : World → Type 0) (out : World × Result A)
    : Type 0 where
  pub post : PostOf Q E out

pub bind-Post :
    {A B : Type 0} {Q : A → World → Type 0} {R : B → World → Type 0} {E : World → Type 0} (m : M A)
    (k : A → M B) (w : World)
    → Post Q E (m w)
    → ((a : A) (v : World) → Q a v → Post R E (k a v))
    → Post R E ((m >>= k) w)
unfolding ◌>>=◌
bind-Post {A = A} {Q = Q} {R = R} {E = E} m k w h rest = go (m w) h.post
  where
    go : (out : World × Result A) → PostOf Q E out → Post R E (bind_result out k)
    go (v, ok a) h = rest a v h
    go (v, error text) h = record { post = h }

pub weaken :
    {A : Type 0} {Q R : A → World → Type 0} {E : World → Type 0} (out : World × Result A)
    → ((a : A) (v : World) → Q a v → R a v)
    → Post Q E out
    → Post R E out
weaken (v, ok a) h p = record { post = h a v p.post }
weaken (v, error text) h p = record { post = p.post }

pub then-Post :
    {A B : Type 0} {Q : A → World → Type 0} {R : B → World → Type 0} {E : World → Type 0} (m : M A)
    (k : M B) (w : World)
    → Post Q E (m w)
    → ((a : A) (v : World) → Q a v → Post R E (k v))
    → Post R E ((m >> k) w)
unfolding ◌>>◌
then-Post m k w h rest = bind-Post m (λ a. k) w h rest

pub return-Post :
    {A : Type 0} {Q : A → World → Type 0} {E : World → Type 0} (a : A) (w : World)
    → Q a w
    → Post Q E (return a w)
unfolding return
return-Post a w h = record { post = h }

pub ask-Post :
    {Q : Env → World → Type 0} {E : World → Type 0} (o : Outside) (w : World)
    → Q (o.env w.step) w
    → Post Q E (ask o w)
unfolding ask
ask-Post o w h = record { post = h }

pub bail_if-Post :
    (P E : World → Type 0) (o : Outside) (b : Bool) (w : World)
    → P w
    → (P w → E w)
    → Post (λ a v. P v × (b ≡ false)) E (bail_if o b w)
unfolding bail_if
bail_if-Post P E o true w p e = record { post = e p }
bail_if-Post P E o false w p e = record { post = (p, refl) }

pub or_bail-Post :
    {A : Type 0} (P E : World → Type 0) (o : Outside) (x : Option A) (w : World)
    → P w
    → (P w → E w)
    → Post (λ a v. P v × (x ≡ some a)) E (or_bail o x w)
unfolding or_bail
or_bail-Post P E o none w p e = record { post = e p }
or_bail-Post P E o (some a) w p e = record { post = (p, refl) }
