-- ===== src/WorkerScript/Setup.antt =====
-- What the script prepares before a run: `_update_shared_volumes_mapping` and
-- `_block_metadata_service`. The configuration's section is a dictionary whose names are in lower
-- case, as the parser of the configuration keeps them.
use jobserv.Prelude.{
  ℕ, ◌/◌, ◌%◌, ◌≡◌, sym, ap, ◌∙◌, ◌⊎◌, inl, inr, Bool, true, false, not, ◌&&◌, Option, none, some,
  List, [], ◌∷◌, any, Text, text, text_eq, text_eq→eq, lower, lookup, store, lookup-store, ◌==◌,
  arith, Option-cases, Bool-cases, if◌then◌else◌,
}

-- The loop over the volumes of the run; `none` is a ValueError.
host_mapping :
    List (Text × Text) → List (Text × Text) → List (Text × Text) → Option (List (Text × Text))
host_mapping section [] mapping = some mapping
host_mapping section ((name, container_path) ∷ vols) mapping = elim (lookup (lower name) section) [
  | none ↦ none
  | some host_path ↦ host_mapping section vols (store host_path container_path mapping)
]

shared_mapping : Option (List (Text × Text)) → List (Text × Text) → Option (List (Text × Text))
unfolding host_mapping
shared_mapping section [] = some []
shared_mapping none (v ∷ vols) = none
shared_mapping (some section) (v ∷ vols) = host_mapping section (v ∷ vols) []

abbrev pub certs_dir : Text
certs_dir = text "/usr/local/share/ca-certificates"

-- `_update_shared_volumes_mapping`: the volumes that the run gets in place of its own. `extra_certs`
-- tells whether the directory of certificates is there and is not empty.
unfoldable pub update_shared_volumes :
    Option (List (Text × Text)) → Bool → List (Text × Text) → Option (List (Text × Text))
unfolding shared_mapping
update_shared_volumes section extra_certs vols = elim (shared_mapping section vols) [
  | none ↦ none
  | some mapping ↦ some (if extra_certs then store certs_dir certs_dir mapping else mapping)
]

-- Some volume of the run has a name that the host configures with this path.
abbrev pub Wanted : List (Text × Text) → List (Text × Text) → Text → Text → Type 0
Wanted section [] host path = ⊥
Wanted section ((name, container_path) ∷ vols) host path =
    (lookup (lower name) section ≡ some host) × (container_path ≡ path)
    ⊎ Wanted section vols host path

host_mapping-Wanted :
    (section vols mapping mapping' : List (Text × Text)) (host path : Text)
    → host_mapping section vols mapping ≡ some mapping'
    → lookup host mapping' ≡ some path
    → Wanted section vols host path ⊎ (lookup host mapping ≡ some path)
unfolding host_mapping
host_mapping-Wanted section [] m m' host path h l = inr (ground (arith, h, l))
host_mapping-Wanted section ((name, cp) ∷ vols) m m' host path h l =
    elim (Option-cases (lookup (lower name) section)) [
      | inl e ↦ absurd (ground (arith, h, e))
      | inr (hp, e) ↦
          elim (host_mapping-Wanted section vols (store hp cp m) m' host path (ground (arith, h, e))
            l) [
              | inl w ↦ inl (inr w)
              | inr k ↦ elim (Bool-cases (text_eq hp host)) [
                | inl same ↦
                    let f = text_eq→eq hp host same in
                    inl (inl (e ∙ ap some f, ground (arith, k, lookup-store hp host cp m, same)))
                | inr other ↦ inr (ground (arith, k, lookup-store hp host cp m, other))
              ]
            ]
    ]

-- The section, or none.
abbrev pub section_of : Option (List (Text × Text)) → List (Text × Text)
section_of none = []
section_of (some section) = section

shared_mapping-Wanted :
    (section : Option (List (Text × Text))) (vols mapping : List (Text × Text)) (host path : Text)
    → shared_mapping section vols ≡ some mapping
    → lookup host mapping ≡ some path
    → Wanted (section_of section) vols host path
unfolding shared_mapping lookup
shared_mapping-Wanted section [] m host path h l = absurd (ground (arith, h, l))
shared_mapping-Wanted none (v ∷ vols) m host path h l = absurd (ground (arith, h))
shared_mapping-Wanted (some section) (v ∷ vols) m host path h l =
    elim (host_mapping-Wanted section (v ∷ vols) [] m host path h l) [
      | inl w ↦ w
      | inr k ↦ absurd (cc k)
    ]

-- A run only gets directories of the worker that the worker's configuration names for a volume that the
-- run asks for, at the place that the run asks for, and the certificates.
pub update_shared_volumes-Wanted :
    (section : Option (List (Text × Text))) (extra_certs : Bool) (vols mapping : List (Text × Text))
    (host path : Text)
    → update_shared_volumes section extra_certs vols ≡ some mapping
    → lookup host mapping ≡ some path
    → Wanted (section_of section) vols host path ⊎ ((host ≡ certs_dir) × (path ≡ certs_dir))
unfolding update_shared_volumes
update_shared_volumes-Wanted section extra_certs vols mapping host path h l =
    elim (Option-cases (shared_mapping section vols)) [
      | inl e ↦ absurd (ground (arith, h, e))
      | inr (m, e) ↦ certs extra_certs m e (ground (arith, h, e)) l
    ]
  where
    certs :
        (b : Bool) (m : List (Text × Text))
        → shared_mapping section vols ≡ some m
        → mapping ≡ (if b then store certs_dir certs_dir m else m)
        → lookup host mapping ≡ some path
        → Wanted (section_of section) vols host path ⊎ ((host ≡ certs_dir) × (path ≡ certs_dir))
    certs false m e q l =
        inl (shared_mapping-Wanted section vols m host path e (ground (arith, l, q)))
    certs true m e q l = elim (Bool-cases (text_eq certs_dir host)) [
      | inl same ↦
          let f = text_eq→eq certs_dir host same in
          inr (sym f, ground (arith, l, q, lookup-store certs_dir host certs_dir m, same))
      | inr other ↦ inl (
          shared_mapping-Wanted section vols m host path e
            (ground (arith, l, q, lookup-store certs_dir host certs_dir m, other)))
    ]

-- A route: its destination and its flags.
pub record Route : Type 0 where
  pub destination : Text
  pub flags : ℕ

-- `flags & RTF_REJECT`
unfoldable pub rejects : Route → Bool
rejects r = r.flags / 512 % 2 == 1

-- `_block_metadata_service`, for one of its two tables: whether a route is added.
unfoldable pub adds_route : Text → List Route → Bool
unfolding rejects
adds_route address routes =
    not (any (λ r. text_eq (lower r.destination) address && rejects r) routes)
