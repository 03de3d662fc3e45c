-- ===== src/GraphDb/MemDriver/Props.antt =====
-- Stored properties: pkg/graphdb/memdriver/props.go. Floating-point numbers, Go's integers and the
-- library's formatting of numbers and times are the parameter `Formats`.
use crosscodex.Prelude.{
  ℕ, Bool, true, false, ◌&&◌, List, [], ◌∷◌, Option, none, some, if◌then◌else◌,
}
use crosscodex.Prelude.Str.{Str, codes, eqs, is_empty}
use crosscodex.Prelude.Eq.{str_eq}
use crosscodex.Prelude.Maps.{lookup, insert}
use crosscodex.GraphDb.Types.{Node, Edge, RequiresEdge, edge_id_of}

pub record Formats : Type 1 where
  pub Float : Type 0
  pub Float32 : Type 0
  pub Int : Type 0
  pub zero_float : Float
  -- x == y on float64
  pub same_float : Float → Float → Bool
  pub of_int : Int → Float
  -- strconv.FormatFloat(x, 'g', -1, 32), read by strconv.ParseFloat
  pub reread : Float32 → Float
  -- t.UTC().Format(TimeLayout), and time.Parse(time.RFC3339Nano, s)
  pub format_time : ℕ → Str
  pub parse_time : Str → Option ℕ
  -- strconv.FormatInt(seq, 10)
  pub format_seq : ℕ → Str

-- A value that the caller gives; `given_other` holds what %v prints of any other type.
pub data Given (fmt : Formats) : Type 0 where
  given_text given_other : Str → Given fmt
  given_bool : Bool → Given fmt
  given_float64 : fmt.Float → Given fmt
  given_float32 : fmt.Float32 → Given fmt
  given_int given_int64 : fmt.Int → Given fmt

-- A value that the store holds; `null` is a nil any.
pub data Value (fmt : Formats) : Type 0 where
  null : Value fmt
  text : Str → Value fmt
  truth : Bool → Value fmt
  number : fmt.Float → Value fmt
  texts : List Str → Value fmt

abbrev pub Props : Formats → Type 0
Props fmt = List (Str × Value fmt)

abbrev same_texts : List Str → List Str → Bool
same_texts [] [] = true
same_texts [] (t ∷ ts) = false
same_texts (s ∷ ss) [] = false
same_texts (s ∷ ss) (t ∷ ts) = eqs s t && same_texts ss ts

abbrev same_bool : Bool → Bool → Bool
same_bool true b = b
same_bool false true = false
same_bool false false = true

module _ (fmt : Formats) where
  -- reflect.DeepEqual
  abbrev pub deep_equal : Value fmt → Value fmt → Bool
  deep_equal null null = true
  deep_equal (text s) (text t) = eqs s t
  deep_equal (truth b) (truth c) = same_bool b c
  deep_equal (number x) (number y) = fmt.same_float x y
  deep_equal (texts ss) (texts ts) = same_texts ss ts
  deep_equal v w = false

  unfoldable pub normalize_value : Given fmt → Value fmt
  normalize_value (given_text s) = text s
  normalize_value (given_bool b) = truth b
  normalize_value (given_float64 x) = number x
  normalize_value (given_float32 x) = number (fmt.reread x)
  normalize_value (given_int i) = number (fmt.of_int i)
  normalize_value (given_int64 i) = number (fmt.of_int i)
  normalize_value (given_other s) = text s

  -- props[k] = v, for a pointer that is not nil and for a text that is not empty.
  abbrev pub put_time : Str → Option ℕ → Props fmt → Props fmt
  put_time k none props = props
  put_time k (some t) props = insert k (text (fmt.format_time t)) props

  abbrev pub put_text : Str → Str → Props fmt → Props fmt
  put_text k s props = if is_empty s then props else insert k (text s) props

  -- for k, v := range n.Properties { props[k] = normalizeValue(v) }
  unfoldable pub put_given : List (Str × Given fmt) → Props fmt → Props fmt
  put_given [] props = props
  put_given ((k, v) ∷ given) props = put_given given (insert k (normalize_value v) props)

  unfoldable pub node_props : Node (Given fmt) → Props fmt
  node_props n = put_given n.properties (
      put_text (codes "creation_method") n.creation_method (
        put_text (codes "created_by") n.created_by (
          put_time (codes "valid_to") n.valid_to (
            (codes "id", text n.id)
            ∷ (codes "valid_from", text (fmt.format_time n.valid_from))
            ∷ []))))

  unfoldable pub edge_props : Edge (Given fmt) fmt.Float → Props fmt
  edge_props e = put_given e.properties (
      put_text (codes "supersedes") e.supersedes (
        put_confidence (
          put_text (codes "determination_type") e.determination_type (
            put_text (codes "determined_by") e.determined_by (
              put_time (codes "valid_to") e.valid_to (
                (codes "id", text e.id)
                ∷ (codes "valid_from", text (fmt.format_time e.valid_from))
                ∷ []))))))
    where
      put_confidence : Props fmt → Props fmt
      put_confidence props =
          if fmt.same_float e.confidence fmt.zero_float
          then props
          else insert (codes "confidence") (number e.confidence) props

  abbrev put_models : List Str → Props fmt → Props fmt
  put_models [] props = props
  put_models (m ∷ ms) props = insert (codes "models") (texts (m ∷ ms)) props

  unfoldable pub requires_props : RequiresEdge fmt.Int fmt.Float → Props fmt
  requires_props r = put_text (codes "prompt_version") r.prompt_version (
      put_models r.models (
        (codes "id", text (edge_id_of r))
        ∷ (codes "valid_from", text (fmt.format_time r.analyzed_at))
        ∷ (codes "confidence", number r.confidence)
        ∷ (codes "unanimous", truth r.unanimous)
        ∷ (codes "valid_votes", number (fmt.of_int r.valid_votes))
        ∷ (codes "total_votes", number (fmt.of_int r.total_votes))
        ∷ (codes "vote_weight", number r.vote_weight)
        ∷ (codes "samples_per_model", number (fmt.of_int r.samples_per_model))
        ∷ (codes "analyzed_at", text (fmt.format_time r.analyzed_at))
        ∷ (codes "job_id", text r.job_id)
        ∷ []))

  abbrev pub text_of : Option (Value fmt) → Str
  text_of (some (text s)) = s
  text_of v = []

  abbrev number_of : Option (Value fmt) → fmt.Float
  number_of (some (number x)) = x
  number_of v = fmt.zero_float

  abbrev pub string_prop : Props fmt → Str → Str
  string_prop props key = text_of (lookup key props)

  abbrev pub float_prop : Props fmt → Str → fmt.Float
  float_prop props key = number_of (lookup key props)

  abbrev time_or_zero : Option ℕ → ℕ
  time_or_zero none = 0
  time_or_zero (some t) = t

  abbrev pub time_prop : Props fmt → Str → ℕ
  time_prop props key = time_or_zero (fmt.parse_time (string_prop props key))

  abbrev pub time_ptr_prop : Props fmt → Str → Option ℕ
  time_ptr_prop props key =
      let s = string_prop props key in if is_empty s then none else fmt.parse_time s
