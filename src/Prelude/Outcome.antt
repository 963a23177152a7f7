-- ===== src/Prelude/Outcome.antt =====
-- What holds of the result of a computation that may fault, whenever there is one.
use mathlib.Core.Path.{◌≡◌, refl, subst}
use mathlib.Core.Option.{Option, none, some}
use mathlib.Core.Bool.{Bool, true, false}
use gran.Prelude.Tests.{if◌then◌else◌}
use gran.Prelude.Fault.{◌>>=◌, ◌>>◌, assert, some_inj}

abbrev pub Holds {ℓ} : {A : Type ℓ} → (A → Type 0) → Option A → Type 0
Holds P none = Unit {0}
Holds P (some a) = P a

pub bind-Holds {ℓ κ} :
    {A : Type ℓ} {B : Type κ} (P : B → Type 0) (m : Option A) (k : A → Option B)
    → ((a : A) → m ≡ some a → Holds P (k a))
    → Holds P (m >>= k)
bind-Holds P none k h = tt
bind-Holds P (some a) k h = h a refl

-- The same where the first computation has a property of its own.
pub bind_with-Holds {ℓ κ} :
    {A : Type ℓ} {B : Type κ} (Q : A → Type 0) (P : B → Type 0) (m : Option A) (k : A → Option B)
    → Holds Q m
    → ((a : A) → Q a → Holds P (k a))
    → Holds P (m >>= k)
bind_with-Holds Q P none k q h = tt
bind_with-Holds Q P (some a) k q h = h a q

pub assert-Holds {ℓ} :
    {B : Type ℓ} (P : B → Type 0) (b : Bool) (m : Option B)
    → (b ≡ true → Holds P m)
    → Holds P (assert b >> m)
assert-Holds P true m h = h refl
assert-Holds P false m h = tt

pub if-Holds {ℓ} :
    {B : Type ℓ} (P : B → Type 0) (b : Bool) (x y : Option B)
    → (b ≡ true → Holds P x)
    → (b ≡ false → Holds P y)
    → Holds P (if b then x else y)
if-Holds P true x y h k = h refl
if-Holds P false x y h k = k refl

-- What holds of both branches of a value.
pub if_lem {ℓ} :
    {A : Type ℓ} (P : A → Type 0) (b : Bool) (x y : A) → P x → P y → P (if b then x else y)
if_lem P true x y h k = h
if_lem P false x y h k = k

pub Holds-weaken {ℓ} :
    {A : Type ℓ} (P Q : A → Type 0) (m : Option A) → ((a : A) → P a → Q a) → Holds P m → Holds Q m
Holds-weaken P Q none f h = tt
Holds-weaken P Q (some a) f h = f a h

pub Holds-some {ℓ} :
    {A : Type ℓ} (P : A → Type 0) (m : Option A) (a : A) → Holds P m → m ≡ some a → P a
Holds-some P none a h e = cc
Holds-some P (some b) a h e = subst P (some_inj e) h

-- There is a result, and it has the property.
abbrev pub Yields {ℓ} : {A : Type ℓ} → (A → Type 0) → Option A → Type ℓ
Yields {A = A} P m = (a : A) × (m ≡ some a) × P a

pub bind-Yields {ℓ κ} :
    {A : Type ℓ} {B : Type κ} (Q : A → Type 0) (P : B → Type 0) (m : Option A) (k : A → Option B)
    → Yields Q m
    → ((a : A) → Q a → Yields P (k a))
    → Yields P (m >>= k)
bind-Yields Q P m k (a, e, q) h = let (b, runs, p) = h a q in (b, rw e runs, p)

pub if-Yields {ℓ} :
    {B : Type ℓ} (P : B → Type 0) (b : Bool) (x y : Option B)
    → (b ≡ true → Yields P x)
    → (b ≡ false → Yields P y)
    → Yields P (if b then x else y)
if-Yields P true x y h k = h refl
if-Yields P false x y h k = k refl
