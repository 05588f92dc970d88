-- ===== src/Domain/Event.antt =====
-- internal/domain/event/event.go, and the producer documents (`map[string]any`) that it carries.
use flow_stitch.Base.{
  ℕ, suc, ◌≡◌, refl, Bool, true, false, ◌&&◌, Option, none, some, Text, codes, text_beq, text_eq,
  nat_eq, ◌==◌, if◌then◌else◌,
}
use flow_stitch.Base.Int.{ℤ, pos, negsuc}
use flow_stitch.Domain.Instant.{Instant}

-- A float: a finite one is given by its shortest decimal text (`FormatFloat(v, 'f', -1, bits)`),
-- which determines it.
pub data Float : Type 0 where
  finite : Text → Float
  not_a_number positive_infinity negative_infinity : Float

-- The integer types of Go that `any` can hold.
pub data IntegerType : Type 0 where
  int int8 int16 int32 int64 uint uint8 uint16 uint32 uint64 : IntegerType

mutual
  pub data Value : Type 0 where
    null : Value
    string : Text → Value
    boolean : Bool → Value
    float64 : Float → Value
    float32 : Float → Value
    integer : IntegerType → ℤ → Value
    array : Values → Value
    object : Fields → Value

  pub data Values : Type 0 where
    end : Values
    item : Value → Values → Values

  pub data Fields : Type 0 where
    empty : Fields
    field : Text → Value → Fields → Fields

-- `object[key]`
unfoldable pub field? : Fields → Text → Option Value
field? empty k = none
field? (field j v fs) k = if j == k then some v else field? fs k

-- `len(array)` and `array[index]`
unfoldable pub length_values : Values → ℕ
length_values end = 0
length_values (item v vs) = suc (length_values vs)

unfoldable pub item? : Values → ℕ → Option Value
item? end i = none
item? (item v vs) ℕ.zero = some v
item? (item v vs) (suc i) = item? vs i

unfoldable pub length_fields : Fields → ℕ
length_fields empty = 0
length_fields (field k v fs) = suc (length_fields fs)

abbrev pub integer_kind : IntegerType → ℕ
integer_kind int = 0
integer_kind int8 = 1
integer_kind int16 = 2
integer_kind int32 = 3
integer_kind int64 = 4
integer_kind uint = 5
integer_kind uint8 = 6
integer_kind uint16 = 7
integer_kind uint32 = 8
integer_kind uint64 = 9

abbrev int_beq : ℤ → ℤ → Bool
int_beq (pos m) (pos n) = m == n
int_beq (pos m) (negsuc n) = false
int_beq (negsuc m) (pos n) = false
int_beq (negsuc m) (negsuc n) = m == n

-- `==` on floats: negative zero is zero, and a NaN is not equal to itself.
unsigned_zero : Text → Text
unsigned_zero t = if t == codes "-0" then codes "0" else t

float_eq : Float → Float → Bool
unfolding unsigned_zero
float_eq (finite s) (finite t) = unsigned_zero s == unsigned_zero t
float_eq positive_infinity positive_infinity = true
float_eq negative_infinity negative_infinity = true
float_eq _ _ = false

-- `reflect.DeepEqual` on document values: equal maps have as many keys, and equal values at each.
unfoldable mutual
  unfolding float_eq field? length_fields

  pub deep_equal : Value → Value → Bool
  deep_equal null null = true
  deep_equal (string s) (string t) = s == t
  deep_equal (boolean true) (boolean b) = b
  deep_equal (boolean false) (boolean true) = false
  deep_equal (boolean false) (boolean false) = true
  deep_equal (float64 x) (float64 y) = float_eq x y
  deep_equal (float32 x) (float32 y) = float_eq x y
  deep_equal (integer s m) (integer t n) = integer_kind s == integer_kind t && int_beq m n
  deep_equal (array xs) (array ys) = deep_equal_values xs ys
  deep_equal (object fs) (object gs) =
      (length_fields fs == length_fields gs) && deep_equal_fields fs gs
  deep_equal _ _ = false

  pub deep_equal_values : Values → Values → Bool
  deep_equal_values end end = true
  deep_equal_values (item v vs) (item w ws) = deep_equal v w && deep_equal_values vs ws
  deep_equal_values _ _ = false

  pub deep_equal_fields : Fields → Fields → Bool
  deep_equal_fields empty gs = true
  deep_equal_fields (field k v fs) gs =
      elim (field? gs k) [ none ↦ false | some w ↦ deep_equal v w ] && deep_equal_fields fs gs

-- `reflect.DeepEqual(a.Doc, b.Doc)` on the documents of two events.
unfoldable pub same_doc : Fields → Fields → Bool
unfolding deep_equal
same_doc fs gs = deep_equal (object fs) (object gs)

-- `raw` holds the producer's bytes; it is not part of the persisted flow.
pub record Event : Type 0 where
  pub doc : Fields
  pub observed_at : Instant
  pub raw : Text

-- `{"a":1,"b":"x"}`, written in either order.
abbrev pub sample : Fields
sample =
    field (codes "a") (float64 (finite (codes "1"))) (field (codes "b") (string (codes "x")) empty)

same_doc_any_order :
    same_doc sample (
      field
        (codes "b")
        (string (codes "x"))
        (field (codes "a") (float64 (finite (codes "1"))) empty))
    ≡ true
unfolding same_doc text_beq
same_doc_any_order = refl
