-- ===== src/Decoder/CsvStream.antt =====
-- scripts/decoders/i2s_skew/pd.py: the binary stream that `report_window` writes, as a list of the
-- kinds of its parts.
use esphome_snapcast.Base.{
  ℕ, zero, suc, ◌≡◌, refl, ◌∙◌, ap, Bool, true, false, List, [], ◌∷◌, ◌++◌, replicate,
}
use mathlib.Core.List.{append-nil}
use esphome_snapcast.Base.Int.{ℤ}
use esphome_snapcast.Decoder.Window.{Annotation, Reason}
use esphome_snapcast.Decoder.Verdicts.{header_if_new}

-- The binary stream: true for the CSV header, false for a row.
unfoldable pub csv_kinds : {F : Type 0} → List (Annotation F) → List Bool
csv_kinds [] = []
csv_kinds (Annotation.csv_header _ ∷ notes) = true ∷ csv_kinds notes
csv_kinds (Annotation.csv_row _ _ _ _ _ _ _ _ ∷ notes) = false ∷ csv_kinds notes
csv_kinds (_ ∷ notes) = csv_kinds notes

csv_kinds-append :
    {F : Type 0} (xs ys : List (Annotation F)) → csv_kinds (xs ++ ys) ≡ csv_kinds xs ++ csv_kinds ys
unfolding csv_kinds
csv_kinds-append [] ys = refl
csv_kinds-append (Annotation.csv_header _ ∷ xs) ys = ap (λ r. true ∷ r) (csv_kinds-append xs ys)
csv_kinds-append (Annotation.csv_row _ _ _ _ _ _ _ _ ∷ xs) ys =
    ap (λ r. false ∷ r) (csv_kinds-append xs ys)
csv_kinds-append (_ ∷ xs) ys = csv_kinds-append xs ys

-- Nothing before the header, and after it rows alone.
abbrev pub IsStream : Bool → List Bool → Type 0
IsStream false kinds = kinds ≡ []
IsStream true kinds = (n : ℕ) × (kinds ≡ true ∷ replicate n false)

replicate-snoc : (n : ℕ) → replicate n false ++ false ∷ [] ≡ replicate (suc n) false
replicate-snoc zero = refl
replicate-snoc (suc n) = ap (λ r. false ∷ r) (replicate-snoc n)

csv_kinds-quiet :
    {F : Type 0} (xs : List (Annotation F)) (note : Annotation F)
    → csv_kinds (note ∷ []) ≡ []
    → csv_kinds (xs ++ note ∷ []) ≡ csv_kinds xs
csv_kinds-quiet xs note h = csv_kinds-append xs (note ∷ []) ∙ rw h (append-nil _)

abbrev header_kind : Bool → List Bool
header_kind true = []
header_kind false = true ∷ []

pub csv_kinds-silent :
    {F : Type 0} (xs : List (Annotation F)) (t e : ℕ)
    → csv_kinds (xs ++ Annotation.silent t e ∷ []) ≡ csv_kinds xs
csv_kinds-silent xs t e = csv_kinds-quiet xs (Annotation.silent t e) (unfold csv_kinds in refl)

pub csv_kinds-unmatched :
    {F : Type 0} (xs : List (Annotation F)) (t e : ℕ) (why : Reason) (best rival : F) (lag : ℤ)
    → csv_kinds (xs ++ Annotation.unmatched t e why best rival lag ∷ []) ≡ csv_kinds xs
csv_kinds-unmatched xs t e why best rival lag =
    csv_kinds-quiet xs (Annotation.unmatched t e why best rival lag) (unfold csv_kinds in refl)

-- The notes of an accepted window that are no CSV.
pub csv_kinds-skew_info :
    {F : Type 0} (xs : List (Annotation F)) (t e : ℕ) (skew_us best rival margin spread_us : F)
    (lag : ℤ) (pairs : ℕ) (continuous : Bool)
    → csv_kinds (
        (xs ++ Annotation.skew t e skew_us lag pairs ∷ [])
        ++ Annotation.info t e best rival margin spread_us continuous ∷ [])
      ≡ csv_kinds xs
csv_kinds-skew_info xs t e skew_us best rival margin spread_us lag pairs continuous =
    csv_kinds-quiet (xs ++ Annotation.skew t e skew_us lag pairs ∷ [])
      (Annotation.info t e best rival margin spread_us continuous) (unfold csv_kinds in refl)
    ∙ csv_kinds-quiet xs (Annotation.skew t e skew_us lag pairs) (unfold csv_kinds in refl)

pub csv_kinds-row :
    {F : Type 0} (wrote : Bool) (xs : List (Annotation F)) (t : ℕ)
    (time_s skew_us best rival spread_us : F) (lag : ℤ) (pairs : ℕ)
    → csv_kinds (
        (xs ++ header_if_new wrote t)
        ++ Annotation.csv_row t time_s skew_us lag best rival spread_us pairs ∷ [])
      ≡ (csv_kinds xs ++ header_kind wrote) ++ false ∷ []
unfolding csv_kinds
csv_kinds-row true xs t time_s skew_us best rival spread_us lag pairs =
    csv_kinds-append (xs ++ [])
      (Annotation.csv_row t time_s skew_us lag best rival spread_us pairs ∷ [])
    ∙ rw (append-nil, append-nil)
csv_kinds-row false xs t time_s skew_us best rival spread_us lag pairs =
    csv_kinds-append (xs ++ Annotation.csv_header t ∷ [])
      (Annotation.csv_row t time_s skew_us lag best rival spread_us pairs ∷ [])
    ∙ rw (csv_kinds-append xs (Annotation.csv_header t ∷ []))

pub IsStream-row :
    (wrote : Bool) (kinds : List Bool)
    → IsStream wrote kinds
    → IsStream true ((kinds ++ header_kind wrote) ++ false ∷ [])
IsStream-row true kinds (n, e) = (suc n, rw (append-nil, e) (ap (λ r. true ∷ r) (replicate-snoc n)))
IsStream-row false kinds e = (1, rw e)
