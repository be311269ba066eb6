-- ===== src/Base/Outcome.antt =====
-- What a piece of the program ends in: a value, a thrown error, or no C++ result at all.
use Prim.Native.Nat.{ℕ}
use mathlib.Core.Path.{◌≡◌, refl}
use mathlib.Core.Option.{Option, none, some}
use mathlib.Core.Bool.{Bool, true, false}
use mathlib.Core.List.{List}
use clientplugin.Base.Tests.{if◌then◌else◌}
use mathlib.Core.Logic.{◌⊎◌, inl, inr, ◌≢◌}

-- The two messages of src/util/leb128.hpp.
pub data LebError : Type 0 where
  past_end too_big : LebError

-- The exceptions that the modelled code throws (src/util/error.hpp), with what their text tells apart.
-- `fault` is a read of memory that is not mapped, `undefined` a shift that C++ leaves undefined,
-- and `out_of_range` the exception of `std::bitset` and of the maps' `at`.
pub data Error : Type 0 where
  fault undefined out_of_range : Error
  leb_error : LebError → Error
  unknown_format unknown_application : ℕ → Error
  extended_length : Error
  bad_cie_id bad_cie_version unknown_augmentation : ℕ → Error
  no_personality no_pc_begin record_overrun : Error
  null_base : Error
  unknown_rtti : List ℕ → Error
  bad_relocation : ℕ → Error
  null_module no_handle no_symbol no_pattern null_offset : Error
  mask_size empty_signature : Error
  bad_variant : Error

-- `stuck` is no C++ outcome: the fuel of a loop ran out.
pub data Result {κ} (V : Type κ) : Type κ where
  stuck : Result V
  err : (thrown : Error) → Result V
  ok : (value : V) → Result V

-- `if (!test) throw x;`
abbrev pub require : (test : Bool) (x : Error) → Result (Unit {0})
require false x = err x
require true x = ok tt

-- One statement after the other; an exception passes by what is left.
infixl 5 ◌>>=◌
abbrev pub ◌>>=◌ {κ ℓ} : {V : Type κ} {W : Type ℓ} (r : Result V) (rest : V → Result W) → Result W
stuck >>= rest = stuck
err x >>= rest = err x
ok v >>= rest = rest v

infixl 5 ◌>>◌
abbrev pub ◌>>◌ {κ} : {W : Type κ} (r : Result (Unit {0})) (rest : Result W) → Result W
r >> rest = r >>= λ _. rest

-- The value of an optional, or the error that its absence is turned into.
abbrev pub or_throw {ℓ} : {A : Type ℓ} → Option A → Error → Result A
or_throw none e = err e
or_throw (some a) e = ok a

-- A sequence that succeeds succeeds in both of its parts.
pub >>=-eq-ok {κ ℓ} :
    {V : Type κ} {W : Type ℓ} (r : Result V) (rest : V → Result W) {w : W}
    → (r >>= rest) ≡ ok w
    → (v : V) × (r ≡ ok v) × (rest v ≡ ok w)
>>=-eq-ok stuck rest e = cc
>>=-eq-ok (err x) rest e = cc
>>=-eq-ok (ok v) rest e = (v, refl, e)

pub Result-cases {ℓ} :
    {A : Type ℓ} (r : Result A) → ((a : A) × (r ≡ ok a)) ⊎ ((e : Error) × (r ≡ err e)) ⊎ (r ≡ stuck)
Result-cases (ok a) = inl (a, refl)
Result-cases (err e) = inr (inl (e, refl))
Result-cases stuck = inr (inr refl)

pub ok-pair {ℓ κ} :
    {A : Type ℓ} {B : Type κ} {a c : A} {b d : B}
    → ◌≡◌ {A = Result (A × B)} (ok (a, b)) (ok (c, d))
    → (a ≡ c) × (b ≡ d)
ok-pair e = (cc, cc)

-- The code ends: in a value or in an error.
abbrev pub Ends {ℓ} : {A : Type ℓ} → Result A → Type ℓ
Ends r = r ≢ stuck

pub ok-Ends {ℓ} : {A : Type ℓ} (a : A) → Ends (ok a)
ok-Ends a e = cc

pub err-Ends {ℓ} : {A : Type ℓ} (x : Error) → Ends {A = A} (err x)
err-Ends x e = cc

pub >>=-Ends {ℓ κ} :
    {A : Type ℓ} {B : Type κ} (m : Result A) (f : A → Result B)
    → Ends m
    → ((a : A) → m ≡ ok a → Ends (f a))
    → Ends (m >>= f)
>>=-Ends (ok a) f em ef = ef a refl
>>=-Ends (err x) f em ef = λ e. cc
>>=-Ends stuck f em ef = absurd (em refl)

pub require-Ends : (b : Bool) (x : Error) → Ends (require b x)
require-Ends true x = λ e. cc
require-Ends false x = λ e. cc

pub or_throw-Ends {ℓ} : {A : Type ℓ} (o : Option A) (x : Error) → Ends (or_throw o x)
or_throw-Ends none x = λ e. cc
or_throw-Ends (some a) x = λ e. cc

pub if-Ends {ℓ} :
    {A : Type ℓ} (b : Bool) (x y : Result A) → Ends x → Ends y → Ends (if b then x else y)
if-Ends true x y ex ey = ex
if-Ends false x y ex ey = ey

pub ok_value {κ} : {S : Type κ} {s t : S} → ok s ≡ ok t → s ≡ t
ok_value e = cc

-- What does not throw is there.
pub or_throw_value {ℓ} :
    {A : Type ℓ} (o : Option A) (x : Error) {a : A} → or_throw o x ≡ ok a → o ≡ some a
or_throw_value none x e = cc
or_throw_value (some b) x e = cc
