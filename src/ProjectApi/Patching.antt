-- ===== src/ProjectApi/Patching.antt =====
-- What a change of a trigger does to its secrets, and that every trigger's secrets stay valid.
use jobserv.Prelude.{
  ℕ, ◌≡◌, refl, sym, ap, subst, ◌∙◌, inl, inr, Bool, true, false, Option, none, some, List, [], ◌∷◌,
  ◌++◌, All, All-append, Text, text_eq, lookup, lookup-store, ◌==◌, arith, Bool-cases, Option-cases,
  if◌then◌else◌,
}
use jobserv.Models.{Project}
use jobserv.Project.{TriggerTypes}
use jobserv.Storage.Definitions.{lookup-delete}
use jobserv.ProjectApi.{Json, null, string, list, other, truth, done, find_project}
use jobserv.ProjectApi.Triggers.{
  ProjectTrigger, update_secrets, SecretArg, PatchArgs, apply_secret, apply_arg, apply_secrets,
  find_trigger, put_trigger, patched, save_patched, save_args, project_patch_trigger, type_of,
}
use jobserv.ProjectApi.SecretNames.{IsSecret, update_secrets-IsSecret}
use jobserv.ProjectApi.Creating.{
  TriggerArgs, add_trigger, typed_trigger, create_known, create_typed, project_create_trigger,
}

-- What a request leaves as the value of a secret: the value that it names last, if it names it.
set_to : Json → Option Json
set_to null = none
set_to (string t) = some (string t)
set_to (list l) = some (list l)
set_to (other b) = some (other b)

named : Option Text → Option Json → Text → Option Json → Option Json
unfolding set_to
named none value j old = old
named (some name) none j old = old
named (some name) (some value) j old = if text_eq name j then set_to value else old

unfoldable pub wanted : List SecretArg → Text → Option Json → Option Json
unfolding named
wanted [] j old = old
wanted (x ∷ xs) j old = wanted xs j (named x.name x.value j old)

lookup-apply_secret :
    (secrets : List (Text × Json)) (name : Text) (value : Json) (j : Text)
    → lookup j (apply_secret secrets name value)
      ≡ (if text_eq name j then set_to value else lookup j secrets)
unfolding apply_secret set_to
lookup-apply_secret secrets name null j = lookup-delete name j secrets
lookup-apply_secret secrets name (string t) j = lookup-store name j (string t) secrets
lookup-apply_secret secrets name (list l) j = lookup-store name j (list l) secrets
lookup-apply_secret secrets name (other b) j = lookup-store name j (other b) secrets

lookup-apply_arg :
    (secrets changed : List (Text × Json)) (name : Option Text) (value : Option Json) (j : Text)
    → apply_arg secrets name value ≡ some changed
    → lookup j changed ≡ named name value j (lookup j secrets)
unfolding apply_arg named
lookup-apply_arg secrets changed none value j h = cc h
lookup-apply_arg secrets changed (some name) none j h = cc h
lookup-apply_arg secrets changed (some name) (some value) j h =
    let same : apply_secret secrets name value ≡ changed = cc h in
    ap (lookup j) (sym same) ∙ lookup-apply_secret secrets name value j

lookup-apply_secrets :
    (xs : List SecretArg) (secrets changed : List (Text × Json)) (j : Text)
    → apply_secrets xs secrets ≡ some changed
    → lookup j changed ≡ wanted xs j (lookup j secrets)
unfolding apply_secrets wanted
lookup-apply_secrets [] secrets changed j h =
    let same : secrets ≡ changed = cc h in ap (lookup j) (sym same)
lookup-apply_secrets (x ∷ xs) secrets changed j h =
    elim (Option-cases (apply_arg secrets x.name x.value)) [
      | inl e ↦
          absurd (cc (sym (ap (λ o. elim o [ none ↦ none | some m ↦ apply_secrets xs m ]) e) ∙ h))
      | inr (m, e) ↦
          lookup-apply_secrets xs m changed j
            (sym (ap (λ o. elim o [ none ↦ none | some m ↦ apply_secrets xs m ]) e) ∙ h)
          ∙ ap (wanted xs j) (lookup-apply_arg secrets m x.name x.value j e)
    ]

-- The rows are found by their keys.
find_trigger-id :
    (id : ℕ) (triggers : List ProjectTrigger) (t : ProjectTrigger)
    → find_trigger id triggers ≡ some t
    → t.id ≡ id
unfolding find_trigger
find_trigger-id id [] t h = cc h
find_trigger-id id (u ∷ us) t h = elim (Bool-cases (u.id == id)) [
  | inl e ↦ ground (arith, h, e)
  | inr e ↦ find_trigger-id id us t (ground (arith, h, e))
]

find_trigger-put_trigger :
    (id : ℕ) (t : ProjectTrigger) (triggers : List ProjectTrigger)
    → (id == t.id) ≡ false
    → find_trigger id (put_trigger t triggers) ≡ find_trigger id triggers
unfolding find_trigger put_trigger
find_trigger-put_trigger id t [] h = refl
find_trigger-put_trigger id t (v ∷ vs) h =
    let rest = find_trigger-put_trigger id t vs h in
    elim (Bool-cases (v.id == t.id)) [
      | inl e ↦ ground (arith, rest, h, e)
      | inr e ↦ ground (arith, rest, h, e)
    ]

find_trigger-put_same :
    (t u : ProjectTrigger) (triggers : List ProjectTrigger)
    → find_trigger t.id triggers ≡ some u
    → find_trigger t.id (put_trigger t triggers) ≡ some t
unfolding find_trigger put_trigger
find_trigger-put_same t u [] h = cc h
find_trigger-put_same t u (v ∷ vs) h = elim (Bool-cases (v.id == t.id)) [
  | inl e ↦ ground (arith, h, e)
  | inr e ↦ ground (arith, h, e, find_trigger-put_same t u vs (ground (arith, h, e)))
]

-- The secrets of every trigger.
abbrev pub HasValidSecrets : List ProjectTrigger → Type 0
HasValidSecrets = All (λ t. All IsSecret t.secret_data)

put_trigger-HasValidSecrets :
    (t : ProjectTrigger) (triggers : List ProjectTrigger)
    → All IsSecret t.secret_data
    → HasValidSecrets triggers
    → HasValidSecrets (put_trigger t triggers)
unfolding put_trigger
put_trigger-HasValidSecrets t [] h hs = tt
put_trigger-HasValidSecrets t (u ∷ us) h hs = elim (Bool-cases (u.id == t.id)) [
  | inl e ↦ rw e (h, put_trigger-HasValidSecrets t us h hs.1)
  | inr e ↦ rw e (hs.0, put_trigger-HasValidSecrets t us h hs.1)
]

find_trigger-HasValidSecrets :
    (id : ℕ) (t : ProjectTrigger) (triggers : List ProjectTrigger)
    → find_trigger id triggers ≡ some t
    → HasValidSecrets triggers
    → All IsSecret t.secret_data
unfolding find_trigger
find_trigger-HasValidSecrets id t [] h hs = cc h
find_trigger-HasValidSecrets id t (u ∷ us) h hs = elim (Bool-cases (u.id == id)) [
  | inl e ↦
      let same : u ≡ t = ground (arith, h, e) in
      subst (λ (v : ProjectTrigger). All IsSecret v.secret_data) same hs.0
  | inr e ↦ find_trigger-HasValidSecrets id t us (ground (arith, h, e)) hs.1
]

-- What a change that is accepted leaves: the row of `t` is one with the secrets that were wanted.
abbrev pub Patched :
    List SecretArg → ProjectTrigger → List ProjectTrigger → List ProjectTrigger → Type 0
Patched xs t before after =
    (t' : ProjectTrigger) × (after ≡ put_trigger t' before)
    × (t'.id ≡ t.id)
    × ((j : Text) → lookup j t'.secret_data ≡ wanted xs j (lookup j t.secret_data))
    × (All IsSecret t.secret_data → All IsSecret t'.secret_data)

done-inj : {A : Type 0} (m n : ℕ) (a b : A) → done m a ≡ done n b → a ≡ b
done-inj m n a b h = cc h

save_patched-Patched :
    (args : PatchArgs) (xs : List SecretArg) (t : ProjectTrigger)
    (secrets : Option (List (Text × Json))) (triggers after : List ProjectTrigger) (code : ℕ)
    → apply_secrets xs t.secret_data ≡ secrets
    → save_patched args t secrets triggers ≡ done code after
    → Patched xs t triggers after
unfolding save_patched patched
save_patched-Patched args xs t none triggers after code e = λ h. absurd (cc h)
save_patched-Patched args xs t (some secrets) triggers after code e =
    elim (Bool-cases (update_secrets secrets)) [
      | inl v ↦ rw v (λ h. (
        patched args secrets t,
        sym (done-inj 200 code (put_trigger (patched args secrets t) triggers) after h),
        refl,
        λ j. lookup-apply_secrets xs t.secret_data secrets j e,
        λ old. update_secrets-IsSecret secrets v,
      ))
      | inr v ↦ rw v (λ h. absurd (cc h))
    ]

save_args-Patched :
    (args : PatchArgs) (xs : List SecretArg) (t : ProjectTrigger)
    (triggers after : List ProjectTrigger) (code : ℕ)
    → save_args args xs t triggers ≡ done code after
    → Patched xs t triggers after
unfolding save_args patched wanted
save_args-Patched args [] t triggers after code h = (
  patched args t.secret_data t,
  sym (done-inj 200 code (put_trigger (patched args t.secret_data t) triggers) after h),
  refl,
  λ j. refl,
  λ old. old,
)
save_args-Patched args (x ∷ xs) t triggers after code h =
    save_patched-Patched args (x ∷ xs) t (apply_secrets (x ∷ xs) t.secret_data) triggers after code
      refl h

-- A change that is accepted was permitted, of a trigger of the project of the address, and it is a
-- change of the row with the key alone.
project_patch_trigger-Patched :
    (permitted : Bool) (proj : Text) (tid code : ℕ) (args : PatchArgs)
    (triggers after : List ProjectTrigger)
    → project_patch_trigger permitted proj tid args triggers ≡ done code after
    → (t : ProjectTrigger) × (permitted ≡ true)
      × (find_trigger tid triggers ≡ some t)
      × (text_eq t.project proj ≡ true)
      × Patched args.secrets t triggers after
unfolding project_patch_trigger
project_patch_trigger-Patched false proj tid code args triggers after = λ h. absurd (cc h)
project_patch_trigger-Patched true proj tid code args triggers after =
    elim (Option-cases (find_trigger tid triggers)) [
      | inl e ↦ rw e (λ h. absurd (cc h))
      | inr (t, e) ↦ rw e (elim (Bool-cases (text_eq t.project proj)) [
        | inr p ↦ rw p (λ h. absurd (cc h))
        | inl p ↦
            rw p
              (λ h. (t, refl, refl, p, save_args-Patched args args.secrets t triggers after code h))
      ])
    ]

-- A change of a trigger that is accepted was permitted, and asked for in the name of the trigger's
-- project. Each secret then has the value that the request names last for it (none, where that value
-- is null), a secret that the request does not name has the value it had, and the other triggers are
-- as they were.
pub project_patch_trigger-wanted :
    (permitted : Bool) (proj : Text) (tid code : ℕ) (args : PatchArgs)
    (triggers after : List ProjectTrigger)
    → project_patch_trigger permitted proj tid args triggers ≡ done code after
    → (t t' : ProjectTrigger) × (permitted ≡ true)
      × (find_trigger tid triggers ≡ some t)
      × (text_eq t.project proj ≡ true)
      × (find_trigger tid after ≡ some t')
      × ((j : Text) → lookup j t'.secret_data ≡ wanted args.secrets j (lookup j t.secret_data))
      × ((id : ℕ) → (id == tid) ≡ false → find_trigger id after ≡ find_trigger id triggers)
project_patch_trigger-wanted permitted proj tid code args triggers after h =
    let (t, ok, found, ours, (t', same, key, secrets, valid)) =
      project_patch_trigger-Patched permitted proj tid code args triggers after h in
    let id_eq : t'.id ≡ tid = key ∙ find_trigger-id tid triggers t found in
    (
      t,
      t',
      ok,
      found,
      ours,
      ap (find_trigger tid) same
          ∙ subst (λ k. find_trigger k (put_trigger t' triggers) ≡ some t') id_eq
              (find_trigger-put_same t' t triggers
                (ap (λ k. find_trigger k triggers) id_eq ∙ found)),
      secrets,
      λ id other.
          ap (find_trigger id) same
          ∙ find_trigger-put_trigger id t' triggers (ap (λ k. id == k) id_eq ∙ other),
    )

-- Where the secrets of every trigger are texts, under names of letters, digits, `_`, `-` and `.` that may
-- end with a line break, they still are after a change of a trigger that is accepted.
pub project_patch_trigger-HasValidSecrets :
    (permitted : Bool) (proj : Text) (tid code : ℕ) (args : PatchArgs)
    (triggers after : List ProjectTrigger)
    → HasValidSecrets triggers
    → project_patch_trigger permitted proj tid args triggers ≡ done code after
    → HasValidSecrets after
project_patch_trigger-HasValidSecrets permitted proj tid code args triggers after v h =
    let (t, ok, found, ours, (t', same, key, secrets, valid)) =
      project_patch_trigger-Patched permitted proj tid code args triggers after h in
    subst HasValidSecrets (sym same) (
      put_trigger-HasValidSecrets t' triggers
        (valid (find_trigger-HasValidSecrets tid t triggers found v)) v)

add_trigger-HasValidSecrets :
    (t : ProjectTrigger) (triggers after : List ProjectTrigger) (code : ℕ)
    → HasValidSecrets triggers
    → add_trigger t triggers ≡ done code after
    → HasValidSecrets after
unfolding add_trigger
add_trigger-HasValidSecrets t triggers after code v =
    elim (Bool-cases (update_secrets t.secret_data)) [
      | inl e ↦ rw e (λ h. subst HasValidSecrets (done-inj 201 code (triggers ++ t ∷ []) after h) (
          All-append (λ (u : ProjectTrigger). All IsSecret u.secret_data) triggers (t ∷ []) v
            (update_secrets-IsSecret t.secret_data e, tt)))
      | inr e ↦ rw e (λ h. absurd (cc h))
    ]

create_known-HasValidSecrets :
    (id code : ℕ) (user : Option Text) (proj : Text) (type : Option TriggerTypes)
    (args : TriggerArgs) (triggers after : List ProjectTrigger)
    → HasValidSecrets triggers
    → create_known id user proj type args triggers ≡ done code after
    → HasValidSecrets after
unfolding create_known
create_known-HasValidSecrets id code user proj none args triggers after v = λ h. absurd (cc h)
create_known-HasValidSecrets id code user proj (some type) args triggers after v =
    add_trigger-HasValidSecrets (typed_trigger id user proj type args) triggers after code v

create_typed-HasValidSecrets :
    (id code : ℕ) (user : Option Text) (proj : Text) (type : Option Json) (args : TriggerArgs)
    (triggers after : List ProjectTrigger)
    → HasValidSecrets triggers
    → create_typed id user proj type args triggers ≡ done code after
    → HasValidSecrets after
unfolding create_typed truth
create_typed-HasValidSecrets id code user proj none args triggers after v = λ h. absurd (cc h)
create_typed-HasValidSecrets id code user proj (some null) args triggers after v =
    λ h. absurd (cc h)
create_typed-HasValidSecrets id code user proj (some (list [])) args triggers after v =
    λ h. absurd (cc h)
create_typed-HasValidSecrets id code user proj (some (list (t ∷ ts))) args triggers after v =
    λ h. absurd (cc h)
create_typed-HasValidSecrets id code user proj (some (other true)) args triggers after v =
    λ h. absurd (cc h)
create_typed-HasValidSecrets id code user proj (some (other false)) args triggers after v =
    λ h. absurd (cc h)
create_typed-HasValidSecrets id code user proj (some (string [])) args triggers after v =
    λ h. absurd (cc h)
create_typed-HasValidSecrets id code user proj (some (string (c ∷ name))) args triggers after v =
    create_known-HasValidSecrets id code user proj (type_of (c ∷ name)) args triggers after v

-- The secrets of every trigger have names and values that are allowed, and they still do after a
-- request that adds a trigger and is accepted.
pub project_create_trigger-HasValidSecrets :
    (permitted : Bool) (user : Option Text) (id code : ℕ) (proj : Text) (args : TriggerArgs)
    (projects : List Project) (triggers after : List ProjectTrigger)
    → HasValidSecrets triggers
    → project_create_trigger permitted user id proj args projects triggers ≡ done code after
    → HasValidSecrets after
unfolding project_create_trigger
project_create_trigger-HasValidSecrets false user id code proj args projects triggers after v =
    λ h. absurd (cc h)
project_create_trigger-HasValidSecrets true user id code proj args projects triggers after v =
    elim (Option-cases (find_project proj projects)) [
      | inl e ↦ rw e (λ h. absurd (cc h))
      | inr (p, e) ↦
          rw e
            (λ h. create_typed-HasValidSecrets id code user proj args.type args triggers after v h)
    ]
