-- ===== src/Permissions.antt =====
-- jobserv/permissions.py: requests between the parts of the server. The keyed hash is an argument.
mod Samples
use jobserv.Prelude.{
  ◌≡◌, ◌≢◌, refl, Bool, true, false, Option, none, some, List, [], ◌∷◌, ◌++◌, Text, text_eq,
  text_eq_refl, arith, if◌then◌else◌,
}

-- What `_assert_internal_user` reads of a request.
pub record Signed : Type 0 where
  pub sig : Option Text
  pub time : Option Text

pub data Verdict : Type 0 where
  internal : Verdict
  -- `RuntimeError`
  missing_key : Verdict
  -- `ApiError(401, …)`
  no_sig no_time invalid_signature : Verdict

-- "%s,%s,%s" % (method, ts, url)
unfoldable pub message : Text → Text → Text → Text
message method ts url = method ++ b',' ∷ ts ++ b',' ∷ url

check_time : (Text → Text → Text) → Text → Text → Text → Text → Option Text → Verdict
unfolding message
check_time hmac key method url sig none = no_time
check_time hmac key method url sig (some []) = no_time
check_time hmac key method url sig (some (c ∷ ts)) =
    if text_eq sig (hmac key (message method (c ∷ ts) url)) then internal else invalid_signature

check_sig : (Text → Text → Text) → Text → Text → Text → Option Text → Option Text → Verdict
unfolding check_time
check_sig hmac key method url none time = no_sig
check_sig hmac key method url (some []) time = no_sig
check_sig hmac key method url (some (c ∷ sig)) time = check_time hmac key method url (c ∷ sig) time

-- `_assert_internal_user`
unfoldable pub assert_internal_user : (Text → Text → Text) → Text → Text → Text → Signed → Verdict
unfolding check_sig
assert_internal_user hmac [] method url headers = missing_key
assert_internal_user hmac (c ∷ key) method url headers =
    check_sig hmac (c ∷ key) method url headers.sig headers.time

-- `_sign`
unfoldable pub sign : (Text → Text → Text) → Text → Text → Text → Text → Signed
unfolding message
sign hmac key method url ts = record {
  sig = some (hmac key (message method ts url));
  time = some ts;
}

check_sig-sign :
    (hmac : Text → Text → Text) (key method url ts digest : Text)
    → hmac key (message method ts url) ≡ digest
    → digest ≢ []
    → ts ≢ []
    → check_sig hmac key method url (some digest) (some ts) ≡ internal
unfolding check_sig check_time
check_sig-sign hmac key method url ts [] e n m = absurd (n refl)
check_sig-sign hmac key method url [] (c ∷ d) e n m = absurd (m refl)
check_sig-sign hmac key method url (t ∷ ts) (c ∷ d) e n m = rw (e, text_eq_refl (c ∷ d))

-- With the key at hand, a request that one part signs is accepted by another for the same method and
-- address, if digests and times are not empty.
pub assert_internal_user-sign :
    (hmac : Text → Text → Text) (key method url ts : Text)
    → key ≢ []
    → ts ≢ []
    → hmac key (message method ts url) ≢ []
    → assert_internal_user hmac key method url (sign hmac key method url ts) ≡ internal
unfolding assert_internal_user sign
assert_internal_user-sign hmac [] method url ts k m n = absurd (k refl)
assert_internal_user-sign hmac (c ∷ key) method url ts k m n =
    check_sig-sign hmac (c ∷ key) method url ts (hmac (c ∷ key) (message method ts url)) refl n m
