-- ===== src/Waste/Sources.antt =====
-- Which tools count as loaded, and where each was named.
use agentprof.Base.{
  ℕ, ◌≡◌, Bool, true, false, Option, none, some, List, [], ◌∷◌, any, if◌then◌else◌, arith, refl,
  ◌∙◌, ap, sym, inl, inr, Bool-cases,
}
use agentprof.Order.{Text, text_ord, pair_ord, eqb, eqb_iff}
use agentprof.Map.{BTreeMap, BTreeSet, get, upsert, get-upsert, get-insert, or_default}
use agentprof.Waste.Report.{LoadedSource}
use agentprof.Waste.Compute.{
  WasteComputeContext, Called, Loaded, split_full_name, note_wire, load_wire, seen_in_config,
  load_tools, load_config, infer_tools, load_called, loaded_of,
}

abbrev Key : Type 0
Key = Text × Text

abbrev names_key : Key → Option Key → Bool
names_key k none = false
names_key k (some p) = eqb k p

-- The tool is named by one of the sources.
abbrev pub in_wire : Key → BTreeSet Text → Bool
in_wire k names = any (λ e. names_key k (split_full_name e.0)) names

abbrev pub in_config : Key → BTreeMap Text (List Text) → Bool
in_config k cfg = any (λ e. any (λ short. eqb k (e.0, short)) e.1) cfg

abbrev pub in_called : Key → Called → Bool
in_called k called = any (λ e. any (λ t. eqb k (e.0, t.0)) e.1) called

get-note_wire :
    (k : Key) (o : Option Key) (m : Loaded)
    → get k (note_wire o m) ≡ (if names_key k o then some LoadedSource.wire else get k m)
unfolding note_wire
get-note_wire k none m = refl
get-note_wire k (some p) m = get-insert k p LoadedSource.wire m

get-load_wire :
    (k : Key) (names : BTreeSet Text) (m : Loaded)
    → get k (load_wire names m) ≡ (if in_wire k names then some LoadedSource.wire else get k m)
unfolding load_wire
get-load_wire k [] m = refl
get-load_wire k ((n, u) ∷ names) m = ground (
  arith,
  get-load_wire k names (note_wire (split_full_name n) m),
  get-note_wire k (split_full_name n) m,
)

seen_in_config_idem : (s : LoadedSource) → seen_in_config (seen_in_config s) ≡ seen_in_config s
seen_in_config_idem LoadedSource.wire = refl
seen_in_config_idem LoadedSource.config = refl
seen_in_config_idem LoadedSource.both = refl
seen_in_config_idem LoadedSource.inferred_from_call = refl

-- The source of a tool that the configuration names, or that was called.
abbrev configured : Option LoadedSource → Option LoadedSource
configured o = some (seen_in_config (or_default LoadedSource.config o))

abbrev inferred : Option LoadedSource → Option LoadedSource
inferred o = some (or_default LoadedSource.inferred_from_call o)

configured_idem : (o : Option LoadedSource) → configured (configured o) ≡ configured o
configured_idem none = refl
configured_idem (some s) = ap some (seen_in_config_idem s)

-- An entry of one key.
get-upsert_key :
    (k p : Key) (d : LoadedSource) (f : LoadedSource → LoadedSource) (m : Loaded)
    → get k (upsert p d f m) ≡ (if eqb k p then some (f (or_default d (get k m))) else get k m)
get-upsert_key k p d f m = get-upsert k p d f m ∙ elim (Bool-cases (eqb k p)) [
  | inl e ↦
      rw (e, if◌then◌else◌) (ap (λ q. some (f (or_default d (get q m)))) (sym ((eqb_iff k p).0 e)))
  | inr e ↦ rw (e, if◌then◌else◌) refl
]

get-load_tools :
    (k : Key) (server : Text) (tools : List Text) (m : Loaded)
    → get k (load_tools server tools m)
      ≡ (if any (λ short. eqb k (server, short)) tools then configured (get k m) else get k m)
unfolding load_tools
get-load_tools k server [] m = refl
get-load_tools k server (short ∷ tools) m = ground (
  arith,
  get-load_tools k server tools (upsert (server, short) LoadedSource.config seen_in_config m),
  get-upsert_key k (server, short) LoadedSource.config seen_in_config m,
  configured_idem (get k m),
)

get-load_config :
    (k : Key) (cfg : BTreeMap Text (List Text)) (m : Loaded)
    → get k (load_config cfg m) ≡ (if in_config k cfg then configured (get k m) else get k m)
unfolding load_config
get-load_config k [] m = refl
get-load_config k ((server, tools) ∷ cfg) m = ground (
  arith,
  get-load_config k cfg (load_tools server tools m),
  get-load_tools k server tools m,
  configured_idem (get k m),
)

inferred_idem : (o : Option LoadedSource) → inferred (inferred o) ≡ inferred o
inferred_idem none = refl
inferred_idem (some s) = refl

get-infer_tools :
    (k : Key) (server : Text) (tools : BTreeMap Text ℕ) (m : Loaded)
    → get k (infer_tools server tools m)
      ≡ (if any (λ t. eqb k (server, t.0)) tools then inferred (get k m) else get k m)
unfolding infer_tools
get-infer_tools k server [] m = refl
get-infer_tools k server ((short, n) ∷ tools) m = ground (
  arith,
  get-infer_tools k server tools
      (upsert (server, short) LoadedSource.inferred_from_call (λ s. s) m),
  get-upsert_key k (server, short) LoadedSource.inferred_from_call (λ s. s) m,
  inferred_idem (get k m),
)

get-load_called :
    (k : Key) (called : Called) (m : Loaded)
    → get k (load_called called m) ≡ (if in_called k called then inferred (get k m) else get k m)
unfolding load_called
get-load_called k [] m = refl
get-load_called k ((server, tools) ∷ called) m = ground (
  arith,
  get-load_called k called (infer_tools server tools m),
  get-infer_tools k server tools m,
  inferred_idem (get k m),
)

-- The source of a tool, from where it is named: on the wire, in the configuration, by a call.
abbrev pub source_of : Bool → Bool → Bool → Option LoadedSource
source_of true true c = some LoadedSource.both
source_of true false c = some LoadedSource.wire
source_of false true c = some LoadedSource.config
source_of false false true = some LoadedSource.inferred_from_call
source_of false false false = none

abbrev if_wire : Bool → Option LoadedSource
if_wire a = if a then some LoadedSource.wire else none

abbrev if_config : Bool → Option LoadedSource → Option LoadedSource
if_config b w = if b then configured w else w

source_of_lem :
    (a b c : Bool)
    → (if c then inferred (if_config b (if_wire a)) else if_config b (if_wire a)) ≡ source_of a b c
source_of_lem true true true = refl
source_of_lem true true false = refl
source_of_lem true false true = refl
source_of_lem true false false = refl
source_of_lem false true true = refl
source_of_lem false true false = refl
source_of_lem false false true = refl
source_of_lem false false false = refl

-- A tool counts as loaded exactly if the session announces it, the configuration lists it or it is
-- called, and its source says which, where a call alone counts as an inference.
pub get-loaded_of :
    (k : Text × Text) (ctx : WasteComputeContext) (called : Called)
    → get k (loaded_of ctx called)
      ≡ source_of
          (in_wire k ctx.wire_loaded)
          (in_config k (or_default [] ctx.config_loaded))
          (in_called k called)
unfolding loaded_of get
get-loaded_of k ctx called =
    let wired = load_wire ctx.wire_loaded [] in
    let cfg = or_default [] ctx.config_loaded in
    get-load_called k called (load_config cfg wired)
    ∙ (ap (λ g. if in_called k called then inferred g else g)
          (get-load_config k cfg wired
            ∙ ap (λ g. if in_config k cfg then configured g else g)
                (get-load_wire k ctx.wire_loaded []))
        ∙ source_of_lem (in_wire k ctx.wire_loaded) (in_config k cfg) (in_called k called))
