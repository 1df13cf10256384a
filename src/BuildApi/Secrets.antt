-- ===== src/BuildApi/Secrets.antt =====
-- The secrets of a build that a caller of the API starts.
use jobserv.Prelude.{
  ◌≡◌, refl, Option, none, some, List, [], ◌∷◌, Text, text, text_eq, text_eq_refl, text_eq→eq,
  lookup, arith, if◌then◌else◌,
}
use jobserv.Project.{Dict, update}
use jobserv.Project.Env.{IsDict, or_else, lookup-update, lookup_nil, or_else-none}
use jobserv.BuildApi.{
  ProjectTrigger, BuildRequest, build_secrets, type_secrets, id_secrets, remove, set_user,
}

lookup-remove :
    (key j : Text) (m : Dict)
    → lookup j (remove key m) ≡ (if text_eq key j then none else lookup j m)
unfolding remove lookup
lookup-remove key j [] = ground arith
lookup-remove key j ((k, v) ∷ m) = ground (
  arith,
  lookup-remove key j m,
  text_eq→eq k key,
  text_eq→eq k j,
  text_eq→eq key j,
  text_eq_refl key,
)

lookup-set_user :
    (user : Option Text) (j : Text) (m : Dict)
    → lookup j (set_user user m)
      ≡ (if text_eq (text "triggered-by") j then or_else user (lookup j m) else lookup j m)
unfolding set_user lookup
lookup-set_user none j m = ground arith
lookup-set_user (some u) j m = ground arith

-- Where a secret of a build comes from, if no dictionary has a key twice and the request is not refused:
-- the name of who started it is set by the server alone, and of the others what the request gives
-- comes before the trigger that it names, and that before the trigger of the type that it names.
pub build_secrets_lem :
    (user : Option Text) (triggers : List ProjectTrigger) (r : BuildRequest)
    (typed named secrets : Dict) (j : Text)
    → IsDict typed
    → IsDict named
    → IsDict r.secrets
    → type_secrets r.trigger_type triggers ≡ some typed
    → id_secrets r.trigger_id triggers ≡ some named
    → build_secrets user triggers r ≡ some secrets
    → lookup j secrets ≡ (
        if text_eq (text "triggered-by") j
        then user
        else or_else (lookup j r.secrets) (or_else (lookup j named) (lookup j typed)))
unfolding build_secrets
build_secrets_lem user triggers r typed named secrets j dt dn dr h k e =
    let base = update [] typed in
    let all = update (update base named) r.secrets in
    let same : secrets ≡ set_user user (remove (text "triggered-by") all) =
      ground (arith, e, h, k) in
    let found : lookup j all
        ≡ or_else (lookup j r.secrets) (or_else (lookup j named) (lookup j typed)) =
      rw
        (
          lookup-update j (update base named) r.secrets dr,
          lookup-update j base named dn,
          lookup-update j [] typed dt,
          lookup_nil j,
          or_else-none (lookup j typed),
        )
        refl in
    rw same (
      ground (
        arith,
        lookup-set_user user j (remove (text "triggered-by") all),
        lookup-remove (text "triggered-by") j all,
        found,
        or_else-none user,
      ))
