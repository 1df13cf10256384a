-- ===== src/Permissions/Samples.antt =====
-- A signed request, with a hash that shows its argument.
use jobserv.Prelude.{◌≡◌, ◌++◌, text}
use jobserv.Permissions.{assert_internal_user, sign, internal, assert_internal_user-sign}

signed_request :
    assert_internal_user
      (λ key m. key ++ m)
      (text "k")
      (text "GET")
      (text "http://s")
      (sign (λ key m. key ++ m) (text "k") (text "GET") (text "http://s") (text "1700"))
    ≡ internal
signed_request =
    assert_internal_user-sign (λ key m. key ++ m) (text "k") (text "GET") (text "http://s")
      (text "1700") (λ e. cc e) (λ e. cc e) (λ e. cc e)
