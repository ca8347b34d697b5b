-- ===== src/Common/Options.antt =====
-- Fallible code: `none` is a Go run-time panic (a slice or an index out of range) where a module
-- does not say otherwise. The bind of `do` blocks.
use mathlib.Core.Path.{◌≡◌, refl, subst}
use mathlib.Core.Logic.{◌⊎◌, inl, inr}
use mathlib.Core.Option.{Option, none, some}
use mathlib.Core.Bool.{Bool, true, false}
use go_smb.Common.Tests.{if◌then◌else◌}

infixl 5 ◌>>=◌
abbrev pub ◌>>=◌ {ℓ κ} : {A : Type ℓ} {B : Type κ} → Option A → (A → Option B) → Option B
none >>= f = none
some a >>= f = f a

pub Option-cases {ℓ} : {A : Type ℓ} (o : Option A) → (o ≡ none) ⊎ ((a : A) × (o ≡ some a))
Option-cases none = inl refl
Option-cases (some a) = inr (a, refl)

-- Inversion of a successful bind.
pub >>=-eq-some {ℓ κ} :
    {A : Type ℓ} {B : Type κ} (m : Option A) (f : A → Option B) {b : B}
    → (m >>= f) ≡ some b
    → (a : A) × (m ≡ some a) × (f a ≡ some b)
>>=-eq-some none f h = cc
>>=-eq-some (some a) f h = (a, refl, h)

-- The code returns: no panic.
abbrev pub Returns {ℓ} : {A : Type ℓ} → Option A → Type ℓ
Returns {A} o = (a : A) × (o ≡ some a)

pub Returns-if {ℓ} :
    {A : Type ℓ} (b : Bool) (x y : Option A)
    → (b ≡ true → Returns x)
    → (b ≡ false → Returns y)
    → Returns (if b then x else y)
Returns-if true x y f g = f refl
Returns-if false x y f g = g refl

pub Returns-bind {ℓ κ} :
    {A : Type ℓ} {B : Type κ} (m : Option A) (f : A → Option B)
    → Returns m
    → ((a : A) → m ≡ some a → Returns (f a))
    → Returns (m >>= f)
Returns-bind none f r k = cc r.1
Returns-bind (some a) f r k = k a refl

-- What holds of the result, if the code returns.
unfoldable pub Post {ℓ κ} : {A : Type ℓ} → (A → Type κ) → Option A → Type κ
Post P none = Unit
Post P (some a) = P a

pub Post-pure {ℓ κ} : {A : Type ℓ} (P : A → Type κ) {a : A} → P a → Post P (some a)
unfolding Post
Post-pure P h = h

pub Post-none {ℓ κ} : {A : Type ℓ} (P : A → Type κ) → Post P none
unfolding Post
Post-none P = tt

pub Post-if {ℓ κ} :
    {A : Type ℓ} (P : A → Type κ) (b : Bool) (x y : Option A)
    → Post P x
    → Post P y
    → Post P (if b then x else y)
unfolding Post
Post-if P true x y l r = l
Post-if P false x y l r = r

-- The rest of the code, from what holds of the first result.
pub Post-bind {ℓ ℓ' κ κ'} :
    {A : Type ℓ} {B : Type ℓ'} (P : A → Type κ) (Q : B → Type κ') (m : Option A) (f : A → Option B)
    → Post P m
    → ((a : A) → m ≡ some a → P a → Post Q (f a))
    → Post Q (m >>= f)
unfolding Post
Post-bind P Q none f h k = tt
Post-bind P Q (some a) f h k = k a refl h

-- The rest of the code whatever the first result is.
pub Post-after {ℓ ℓ' κ} :
    {A : Type ℓ} {B : Type ℓ'} (Q : B → Type κ) (m : Option A) (f : A → Option B)
    → ((a : A) → m ≡ some a → Post Q (f a))
    → Post Q (m >>= f)
unfolding Post
Post-after Q none f k = tt
Post-after Q (some a) f k = k a refl

pub Post-some {ℓ κ} :
    {A : Type ℓ} (P : A → Type κ) {m : Option A} {a : A} → Post P m → m ≡ some a → P a
unfolding Post
Post-some P h e = subst (Post P) e h
