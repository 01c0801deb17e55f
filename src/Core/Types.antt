-- ===== src/Core/Types.antt =====
-- The enumerations of include/protobluff/core/common.h, and what a C function can come to.
use protobluff.Common.{ℕ, ◌≡◌, ◌≢◌, refl}

-- `pb_error_t`; `no_error` is PB_ERROR_NONE.
pub data Error : Type 0 where
  no_error alloc invalid varint offset absent eom : Error

-- `pb_wiretype_t`, its values 0, 1, 2 and 5.
pub data Wiretype : Type 0 where
  wire_varint wire_64bit wire_length wire_32bit : Wiretype

-- `pb_type_t`.
pub data FieldType : Type 0 where
  undefined int32 int64 uint32 uint64 sint32 sint64 : FieldType
  fixed32 fixed64 sfixed32 sfixed64 bool enum float double string bytes message : FieldType

-- `pb_label_t`.
pub data Label : Type 0 where
  undefined_label required optional repeated oneof : Label

-- What a call comes to: it returns, it reports an error, or its behaviour is undefined in C: it
-- reads behind a block of memory or calls a null pointer.
pub data Outcome {ℓ} (A : Type ℓ) : Type ℓ where
  ok : A → Outcome A
  err : Error → Outcome A
  fault : Outcome A

infixl 5 ◌>>=◌
abbrev pub ◌>>=◌ {ℓ κ} : {A : Type ℓ} {B : Type κ} → Outcome A → (A → Outcome B) → Outcome B
ok a >>= f = f a
err e >>= f = err e
fault >>= f = fault

-- Inversion of a successful sequence.
pub >>=-eq-ok {ℓ κ} :
    {A : Type ℓ} {B : Type κ} (m : Outcome A) (f : A → Outcome B) {b : B}
    → (m >>= f) ≡ ok b
    → (a : A) × (m ≡ ok a) × (f a ≡ ok b)
>>=-eq-ok (ok a) f e = (a, refl, e)
>>=-eq-ok (err x) f e = cc
>>=-eq-ok fault f e = cc

-- The numbers of the wire types on the wire.
unfoldable pub wire_number : Wiretype → ℕ
wire_number wire_varint = 0
wire_number wire_64bit = 1
wire_number wire_length = 2
wire_number wire_32bit = 5

-- A sequence whose parts report no error reports none.
pub >>=-≢-err {ℓ κ} :
    {A : Type ℓ} {B : Type κ} (m : Outcome A) (f : A → Outcome B) {e : Error}
    → m ≢ err e
    → ((a : A) → f a ≢ err e)
    → (m >>= f) ≢ err e
>>=-≢-err (ok a) f h k x = k a x
>>=-≢-err (err e') f h k x = h cc
>>=-≢-err fault f h k x = cc

-- Sequences that agree behind their first call.
pub >>=-split {ℓ κ μ} :
    {A : Type ℓ} {B : Type κ} {C : Type μ} (m : Outcome A) (f : A → Outcome B) (g : B → Outcome C)
    (h : A → Outcome C)
    → ((a : A) → h a ≡ (f a >>= g))
    → (m >>= h) ≡ ((m >>= f) >>= g)
>>=-split (ok a) f g h e = e a
>>=-split (err x) f g h e = refl
>>=-split fault f g h e = refl

-- What holds of a sequence whose first call answers, and of the two other ends.
pub >>=-elim {ℓ κ μ} :
    {A : Type ℓ} {B : Type κ} (P : Outcome B → Type μ) (m : Outcome A) (f : A → Outcome B)
    → ((a : A) → m ≡ ok a → P (f a))
    → ((e : Error) → m ≡ err e → P (err e))
    → P fault
    → P (m >>= f)
>>=-elim P (ok a) f h k l = h a refl
>>=-elim P (err e) f h k l = k e refl
>>=-elim P fault f h k l = l
