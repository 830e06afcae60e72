-- ===== src/StringUtil/Examples.antt =====
-- Tests of the functions of string_util.c, and the theorems at concrete texts.
use iot_eclipse.Base.{
  ℕ, ◌+◌, ◌<◌, ◌≤◌, ◌≡◌, ◌≢◌, ◌⊎◌, refl, none, some, [], ◌∷◌, arith, ◌==◌, ltb, if◌then◌else◌,
}
use iot_eclipse.Base.Bytes.{at, codes}
use iot_eclipse.Code.{ErrorCode}
use iot_eclipse.StringUtil.{strlen, strnlen, find, find_case_insensitive, snprintf}
use iot_eclipse.StringUtil.Length.{strnlen-min}
use iot_eclipse.StringUtil.Find.{Matches, find-Matches, find-char, find_misses}
use iot_eclipse.StringUtil.Print.{snprintf_whole, snprintf_cut}

find_test : find (codes "multipart/mixed") (codes "part") ≡ some 5
unfolding find
find_test = refl

find_missed_test : find (codes "aab") (codes "ab") ≡ none
unfolding find
find_missed_test = refl

find_letters_test : find_case_insensitive (codes "ETag: 7") (codes "etag") ≡ some 0
unfolding find_case_insensitive
find_letters_test = refl

strnlen_test : strnlen (codes "host") 3 ≡ 3
unfolding strnlen
strnlen_test = refl

find-Matches_example :
    Matches ◌==◌ (codes "multipart/mixed") (codes "part") 5 (strlen (codes "part"))
    × (5 + strlen (codes "part") ≤ strlen (codes "multipart/mixed"))
find-Matches_example = find-Matches (codes "multipart/mixed") (codes "part") 5 find_test

find-char_test :
    (find (codes "1.0") (b'.' ∷ []) ≡ none
      × ((k : ℕ) → k < strlen (codes "1.0") → at (codes "1.0") k ≢ b'.'))
    ⊎ ((i : ℕ) × (find (codes "1.0") (b'.' ∷ []) ≡ some i)
        × (at (codes "1.0") i ≡ b'.')
        × (i < strlen (codes "1.0"))
        × ((k : ℕ) → k < i → at (codes "1.0") k ≢ b'.'))
find-char_test = find-char (codes "1.0") b'.' (omega arith)

find_misses_example :
    (find (b'a' ∷ b'a' ∷ b'b' ∷ []) (b'a' ∷ b'b' ∷ []) ≡ none)
    × Matches ◌==◌ (b'a' ∷ b'a' ∷ b'b' ∷ []) (b'a' ∷ b'b' ∷ []) 1 (strlen (b'a' ∷ b'b' ∷ []))
find_misses_example = find_misses b'a' b'b' (omega arith) (omega arith) (omega arith)

strnlen-min_test :
    strnlen (codes "host") 3 ≡ (if ltb 3 (strlen (codes "host")) then 3 else strlen (codes "host"))
strnlen-min_test = strnlen-min (codes "host") 3

snprintf_whole_test : snprintf 4 (codes "1.0") ≡ (ErrorCode.ok, codes "1.0")
snprintf_whole_test = snprintf_whole 4 (codes "1.0") (omega arith) (omega arith) (omega arith)

snprintf_cut_test :
    ((snprintf 3 (codes "1.0")).0 ≡ ErrorCode.ok) × ((snprintf 3 (codes "1.0")).1 ≢ codes "1.0")
snprintf_cut_test = snprintf_cut 3 (codes "1.0") (omega arith) (omega arith) (omega arith)
