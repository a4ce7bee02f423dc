-- ===== src/Buffer/ReadLines.antt =====
-- Reading lines out of a buffer (buffer.c), against lines of its list of bytes.
use mathlib.Core.Path.{subst}
use libevent_linux.Prelude.{
  ℕ, ◌+◌, ◌≡◌, refl, sym, ap, ◌∙◌, Bool, true, false, not, ◌||◌, Option, none, some, length, take,
  drop, leb, ◌==◌, if◌then◌else◌, if_elim, Option-cases, inl, inr, arith,
}
use libevent_linux.Prelude.Slices.{drop-drop}
use libevent_linux.Buffer.Chain.{Bytes}
use libevent_linux.Buffer.State.{Evbuffer, evbuffer_invoke_callbacks, evbuffer_run_callbacks}
use libevent_linux.Buffer.Invariant.{Represents}
use libevent_linux.Buffer.Remove.{
  EvbufferPtr, remove_bytes, evbuffer_remove, evbuffer_drain, evbuffer_copyout_from,
}
use libevent_linux.Buffer.RemoveLaws.{remove_bytes-Represents, drain-Represents}
use libevent_linux.Buffer.Search.{EolStyle, evbuffer_search_eol, evbuffer_readln}
use libevent_linux.Buffer.LineLaws.{line_end, positions, search_eol-line_end}

invoke-freeze_start :
    (buf : Evbuffer) → (evbuffer_invoke_callbacks buf).freeze_start ≡ buf.freeze_start
unfolding evbuffer_invoke_callbacks evbuffer_run_callbacks
invoke-freeze_start buf = ground arith

drain-freeze_start :
    (buf : Evbuffer) (n : ℕ) → (evbuffer_drain buf n).1.freeze_start ≡ buf.freeze_start
unfolding evbuffer_drain
drain-freeze_start buf n =
    let P = λ (r : Bool × Evbuffer). r.1.freeze_start ≡ buf.freeze_start in
    if_elim P (buf.total_len == 0) (λ _. refl)
      (λ _.
        if_elim P buf.freeze_start (λ _. refl)
          (λ _.
            if_elim P (leb buf.total_len n) (λ _. invoke-freeze_start _)
              (λ _. invoke-freeze_start _)))

remove-freeze_start :
    (buf : Evbuffer) (n : ℕ) → (remove_bytes buf n).1.freeze_start ≡ buf.freeze_start
unfolding remove_bytes
remove-freeze_start buf n = elim (Option-cases (evbuffer_copyout_from buf none n)) [
  | inl out ↦ rw (out, remove_bytes) refl
  | inr (data_out, copied) ↦
      let P = λ (r : Option Bytes × Evbuffer). r.1.freeze_start ≡ buf.freeze_start in
      rw (copied, remove_bytes)
        (if_elim P (length data_out == 0) (λ _. refl)
          (λ _.
            if_elim P (evbuffer_drain buf (length data_out)).0
              (λ _. drain-freeze_start buf (length data_out))
              (λ _. drain-freeze_start buf (length data_out))))
]

-- What evbuffer_readln gives for the end of the first line: without one NULL and the same buffer,
-- with one what is before it, and a buffer of what is behind it.
abbrev pub TakesLine : Option (ℕ × ℕ) → Bytes → Evbuffer → Option Bytes × Evbuffer → Type 0
TakesLine none bs buf (line, buf') = (line ≡ none) × (buf' ≡ buf)
TakesLine (some (k, extra)) bs buf (line, buf') =
    (line ≡ some (take k bs)) × Represents buf' (drop (k + extra) bs)

-- With memory, a buffer that represents a list of bytes, and whose front is not frozen: if the
-- bytes have the end of a line, evbuffer_readln returns what is before its first one, and the
-- buffer represents what is behind it; if not, it returns NULL and changes nothing. The end of a
-- line is by the style: all CRs and LFs in a row, an LF with a CR before it if there is one, an LF,
-- or a NUL.
pub readln-line :
    (buf : Evbuffer) (bs : Bytes) (eol_style : EolStyle)
    → Represents buf bs
    → buf.freeze_start ≡ false
    → TakesLine (line_end eol_style bs) bs buf (evbuffer_readln buf eol_style true)
unfolding evbuffer_readln evbuffer_remove
readln-line buf bs eol_style s free =
    line_cases (evbuffer_search_eol buf none eol_style)
      (search_eol-line_end buf s.valid eol_style ∙ ap (line_end eol_style) s.held)
  where
    readln_of : Option (EvbufferPtr × ℕ) → Option Bytes × Evbuffer
    readln_of none = (none, buf)
    readln_of (some (it, extra_drain)) =
        let (line, buf') = remove_bytes buf it.pos in
        if buf.freeze_start || not true
        then (none, buf)
        else (line, (evbuffer_drain buf' extra_drain).1)

    line_cases :
        (r : Option (EvbufferPtr × ℕ))
        → positions r ≡ line_end eol_style bs
        → TakesLine (line_end eol_style bs) bs buf (readln_of r)
    line_cases none ends = rw (sym ends) (refl, refl)
    line_cases (some (it, extra_drain)) ends =
        let (line, left) = remove_bytes-Represents buf bs it.pos s free in
        let buf' = (remove_bytes buf it.pos).1 in
        let free' : buf'.freeze_start ≡ false = remove-freeze_start buf it.pos ∙ free in
        let (drained, rest) = drain-Represents buf' (drop it.pos bs) extra_drain left free' in
        let P = λ (r : Option Bytes × Evbuffer).
          (r.0 ≡ some (take it.pos bs)) × Represents r.1 (drop (it.pos + extra_drain) bs) in
        rw (sym ends) (
          if_elim P (buf.freeze_start || false) (λ frozen. absurd (ground (arith, frozen)))
            (λ _. (
              line,
              subst (Represents (evbuffer_drain buf' extra_drain).1)
                  (drop-drop extra_drain it.pos bs) rest,
            )))
