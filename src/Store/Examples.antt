-- ===== src/Store/Examples.antt =====
-- A version, and the theorems at it.
use iot_eclipse.Base.{◌≡◌, refl, true, arith}
use iot_eclipse.Base.Bytes.{Bytes, at, codes}
use iot_eclipse.StringUtil.{strlen, find}
use iot_eclipse.Store.{is_positive_integer, is_valid_version, digits_loop}
use iot_eclipse.Store.Version.{
  IsDigit, IsVersion, is_positive_integer_sound, is_valid_version-IsVersion,
}

abbrev version : Bytes
version = codes "12.0"

valid_test : is_valid_version version ≡ true
unfolding is_valid_version is_positive_integer digits_loop find strlen
valid_test = refl

integer_test : is_positive_integer version 0 2 ≡ true
unfolding is_positive_integer digits_loop
integer_test = refl

is_positive_integer_sound_test : IsDigit (at version 1)
is_positive_integer_sound_test =
    is_positive_integer_sound version 0 2 integer_test 1 (omega arith) (omega arith)

is_valid_version-IsVersion_example : IsVersion version
is_valid_version-IsVersion_example = is_valid_version-IsVersion version valid_test
