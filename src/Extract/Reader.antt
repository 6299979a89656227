-- ===== src/Extract/Reader.antt =====
-- `CappedReader` (src/extract.rs), which counts what comes out of the gzip decoder. The decoder is a
-- parameter: a call asks it for at most a number of bytes, and `none` is an I/O error.
use tauri_plugin_hot_update.Prelude.{
  ℕ, ◌+◌, ◌-◌, ◌≤◌, min, Bool, true, false, Option, none, some, List, [], ◌∷◌, ◌++◌, ◌==◌, ◌≡◌, not,
  ◌||◌, refl, arith, if◌then◌else◌, Option-cases, inl, inr,
}
use tauri_plugin_hot_update.Prelude.Lists.{length, length-append}
use tauri_plugin_hot_update.Extract.Entries.{Limits, saturating_add}

-- `STREAM_SLACK_BYTES`
abbrev pub stream_slack_bytes : ℕ
stream_slack_bytes = 33554432

abbrev pub stream_cap : Limits → ℕ
stream_cap limits = saturating_add limits.max_total_bytes stream_slack_bytes

-- The contract of `Read`: a call yields at most as many bytes as it asks for.
pub record Source : Type 1 where
  pub Inner : Type 0
  pub read : ℕ → Inner → Option (List ℕ) × Inner
  pub read_few :
      (size : ℕ) (inner : Inner) (bytes : List ℕ)
      → (read size inner).0 ≡ some bytes
      → length bytes ≤ size

module _ (source : Source) where
  pub record CappedReader : Type 0 where
    pub inner : source.Inner
    pub remaining : ℕ
    pub exceeded : Bool

  abbrev pub new_reader : source.Inner → ℕ → CappedReader
  new_reader inner limit = record { inner = inner; remaining = limit; exceeded = false }

  abbrev pub took : CappedReader → Option (List ℕ) × source.Inner → Option (List ℕ) × CappedReader
  took r (none, inner) = (none, record r { inner = inner })
  took r (some bytes, inner) =
      (some bytes, record r { inner = inner; remaining = r.remaining - length bytes })

  -- `read` into a buffer of a size
  unfoldable pub read : ℕ → CappedReader → Option (List ℕ) × CappedReader
  read size r =
      if r.remaining == 0
      then (none, record r { exceeded = true })
      else took r (source.read (min r.remaining size) r.inner)

  -- the bytes that a sequence of reads yields, errors included and passed over
  abbrev pub bytes_of : Option (List ℕ) → List ℕ
  bytes_of none = []
  bytes_of (some bytes) = bytes

  unfoldable pub read_all : List ℕ → CappedReader → List ℕ × CappedReader
  unfolding read
  read_all [] r = ([], r)
  read_all (size ∷ sizes) r =
      let (got, r') = read size r in
      let (rest, last) = read_all sizes r' in (bytes_of got ++ rest, last)

  -- the flag is raised only when nothing remains
  abbrev pub is_counted : CappedReader → Bool
  is_counted r = not r.exceeded || r.remaining == 0

  read_count :
      (size : ℕ) (r : CappedReader)
      → (length (bytes_of (read size r).0) + (read size r).1.remaining ≡ r.remaining)
        × (is_counted r ≡ true → is_counted (read size r).1 ≡ true)
  unfolding read
  read_count size r = elim (Option-cases (source.read (min r.remaining size) r.inner).0) [
    | inl n ↦ (ground arith, λ h. ground arith)
    | inr (bytes, n) ↦
        let few = source.read_few (min r.remaining size) r.inner bytes n in
        (ground (arith, few), λ h. ground (arith, few))
  ]

  read_all_count :
      (sizes : List ℕ) (r : CappedReader)
      → (length (read_all sizes r).0 + (read_all sizes r).1.remaining ≡ r.remaining)
        × (is_counted r ≡ true → is_counted (read_all sizes r).1 ≡ true)
  unfolding read_all
  read_all_count [] r = (omega arith, λ h. h)
  read_all_count (size ∷ sizes) r =
      let (got, r') = read size r in
      let (all, kept) = read_all_count sizes r' in
      let (one, keeps) = read_count size r in
      (
        omega (arith, all, one, length-append (bytes_of got) (read_all sizes r').0),
        λ h. kept (keeps h),
      )

  -- However the decoder is read and whatever it yields within the contract of `Read`, no more
  -- bytes come out of it than the cap of the stream, and the mark that it was exceeded is set only
  -- when exactly that many have come out.
  pub length-read_all :
      (sizes : List ℕ) (inner : source.Inner) (limits : Limits)
      → let (bytes, last) = read_all sizes (new_reader inner (stream_cap limits)) in
        (length bytes ≤ stream_cap limits)
        × (last.exceeded ≡ true → length bytes ≡ stream_cap limits)
  length-read_all sizes inner limits =
      let (all, kept) = read_all_count sizes (new_reader inner (stream_cap limits)) in
      (omega (arith, all), λ h. ground (arith, all, kept refl))
