-- ===== src/Runner/Docker.antt =====
-- runner/jobserv_runner/handlers/simple.py: the container of a run. Files and paths of the worker are
-- texts; what exists in the file system is an argument.
use jobserv.Prelude.{
  ℕ, suc, ◌+◌, ◌≡◌, refl, Bool, Option, none, some, List, [], ◌∷◌, ◌++◌, map, flat_map, length,
  Text, text, ◌==◌, arith, if◌then◌else◌,
}

-- What the handler reads of a run definition.
pub record RunDef : Type 0 where
  pub project : Text
  pub container : Text
  pub env : List (Text × Text)
  pub secrets : List (Text × Text)
  pub privileged : Bool
  pub cap_add : List Text
  pub cap_drop : List Text
  -- `str(maxbytes)`; a bound of 0 is none
  pub max_mem_bytes : Option Text
  pub container_user : Option Text
  pub container_entrypoint : Option Text
  pub persistent_volumes : List (Text × Text)
  pub shared_volumes : List (Text × Text)
  pub clone_url : Option Text

-- `val.replace("\n", "\\n")`
unfoldable pub escape : Text → Text
escape [] = []
escape (c ∷ s) = let rest = escape s in if c == 10 then b'\\' ∷ b'n' ∷ rest else c ∷ rest

variable : Text × Text → Text
variable (k, v) = k ++ b'=' ∷ v

-- The file of the container's variables.
unfoldable pub docker_env : List (Text × Text) → Text
unfolding escape variable
docker_env [] = []
docker_env (kv ∷ envvars) = escape (variable kv) ++ 10 ∷ docker_env envvars

-- `":".join(x)` of a mount
unfoldable pub joined : List Text → Text
joined [] = []
joined (x ∷ []) = x
joined (x ∷ y ∷ xs) = x ++ b':' ∷ joined (y ∷ xs)

option : Text → Option Text → List Text
option name none = []
option name (some []) = []
option name (some (c ∷ value)) = name ∷ (c ∷ value) ∷ []

entrypoint : Option Text → List Text
entrypoint none = []
entrypoint (some ep) = text "--entrypoint" ∷ ep ∷ []

-- The command of `docker_run`.
unfoldable pub docker_command : RunDef → Text → Text → Text → List (List Text) → Text → List Text
unfolding joined option entrypoint
docker_command d name cwd env_file mounts command =
    text "docker"
    ∷ text "run"
    ∷ text "--rm"
    ∷ text "--name"
    ∷ name
    ∷ text "-w"
    ∷ cwd
    ∷ text "--env-file"
    ∷ env_file
    ∷ ((if d.privileged then text "--privileged" ∷ [] else [])
        ++ (flat_map (λ add. text "--cap-add" ∷ add ∷ []) d.cap_add
            ++ (flat_map (λ drop. text "--cap-drop" ∷ drop ∷ []) d.cap_drop
                ++ (option (text "--memory") d.max_mem_bytes
                    ++ (option (text "--user") d.container_user
                        ++ (entrypoint d.container_entrypoint
                            ++ (map (λ m. text "-v" ++ joined m) mounts
                                ++ d.container ∷ command ∷ [])))))))

-- `_prepare_volumes`: the mounts of the volumes that are kept, and those that are shared, for reading.
unfoldable pub prepare_volumes : Text → RunDef → List (List Text)
prepare_volumes worker_dir d =
    map (λ v. (worker_dir ++ text "/volumes/" ++ d.project ++ b'/' ∷ v.0) ∷ v.1 ∷ [])
      d.persistent_volumes
    ++ map (λ v. v.0 ∷ v.1 ∷ text "ro" ∷ []) d.shared_volumes

-- How often a character stands in a text.
abbrev pub count : ℕ → Text → ℕ
count c [] = 0
count c (d ∷ s) = if d == c then suc (count c s) else count c s

count-append : (c : ℕ) (s t : Text) → count c (s ++ t) ≡ count c s + count c t
count-append c [] t = omega arith
count-append c (d ∷ s) t = ground (arith, count-append c s t)

count-escape : (s : Text) → count 10 (escape s) ≡ 0
unfolding escape
count-escape [] = refl
count-escape (c ∷ s) = ground (arith, count-escape s)

-- The file of variables has exactly one line for each variable, whatever is in their values.
pub docker_env-lines :
    (envvars : List (Text × Text)) → count 10 (docker_env envvars) ≡ length envvars
unfolding docker_env
docker_env-lines [] = refl
docker_env-lines (kv ∷ envvars) = omega (
  arith,
  count-append 10 (escape (variable kv)) (10 ∷ docker_env envvars),
  count-escape (variable kv),
  docker_env-lines envvars,
)
