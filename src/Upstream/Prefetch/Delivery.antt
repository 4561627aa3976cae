-- ===== src/Upstream/Prefetch/Delivery.antt =====
-- How the opening of a stream ends, and what the caller gets to read.
use mathlib.Core.Path.{subst}
use nvidia_api_gateway.Prelude.{
  ℕ, zero, suc, ◌≡◌, refl, ◌∙◌, inl, inr, Bool, true, false, ◌||◌, Option, none, some, List, [],
  ◌∷◌, ◌++◌, any, ltb, leb, Bool-cases, Option-cases,
}
use nvidia_api_gateway.Prelude.Text.{Text}
use nvidia_api_gateway.Json.{Value}
use nvidia_api_gateway.Upstream.Policy.{GoError}
use nvidia_api_gateway.Upstream.Prefetch.{
  StreamChoice, inspect_open_ai_stream_prefetch, byte_length, max_open_ai_stream_prefetch_bytes,
  first_byte_timeout, empty_response, context_error, transport_error, ReadError, eof, broken, Round,
  late, timed_out, cancelled, read, cancel, Opened, passed, ready, failed, dropped, after_read,
  on_text, prefetch_loop, Headers, no_request, no_response, headers_late, headers_cancelled, status,
  open_upstream_stream_with_prefetch,
}

-- Whether a round ends the loop, whatever has been read.
abbrev pub is_final : Round → Bool
is_final (read more none) = false
is_final _ = true

later :
    (more : Text) (err : Option ReadError) (rounds : List Round)
    → err ≡ none
    → any is_final (read more err ∷ rounds) ≡ true
    → any is_final rounds ≡ true
later more none rounds e f = f
later more (some x) rounds e f = cc e

module _ (inspect : Text → Bool × Bool) where
  -- At least 64 KB.
  abbrev pub is_long : Text → Bool
  is_long text = leb max_open_ai_stream_prefetch_bytes (byte_length text)

  -- A text that decides nothing: it says nothing meaningful, is not done, and is short.
  abbrev pub IsIdle : Text → Type 0
  IsIdle text = ((inspect text).0 ≡ false) × ((inspect text).1 ≡ false) × (is_long text ≡ false)

  -- What a round decides on the text so far, by the error of its read.
  pub data Decision (text : Text) (err : Option ReadError) : Option Opened → Type 0 where
    emptied :
        (inspect text).0 ≡ false
        → (inspect text).1 ≡ true
        → Decision text err (some (dropped empty_response))
    meant : (inspect text).0 ≡ true → Decision text err (some (ready text))
    enough :
        (inspect text).0 ≡ false
        → (inspect text).1 ≡ false
        → is_long text ≡ true
        → Decision text err (some (ready text))
    ended : IsIdle text → err ≡ some eof → Decision text err (some (dropped empty_response))
    cut :
        (e : GoError)
        → IsIdle text
        → err ≡ some (broken e)
        → Decision text err (some (dropped (transport_error e)))
    left : IsIdle text → err ≡ none → Decision text err none

  -- The loop goes on after each of the first `n` rounds.
  abbrev pub Waits : ℕ → List Round → Text → Type 0
  Waits zero rounds text = Unit
  Waits (suc n) (read more err ∷ rounds) text =
      Decision (text ++ more) err none × Waits n rounds (text ++ more)
  Waits (suc n) _ text = ⊥

  -- What the loop ends with in its first round, by that round.
  abbrev pub EndsNow : List Round → Text → Opened → Type 0
  EndsNow [] text o = ⊥
  EndsNow (late ∷ rounds) text o = o ≡ dropped first_byte_timeout
  EndsNow (timed_out ∷ rounds) text o = o ≡ dropped first_byte_timeout
  EndsNow (cancelled ∷ rounds) text o = o ≡ dropped context_error
  EndsNow (read more err ∷ rounds) text o = Decision (text ++ more) err (some o)

  -- What it ends with after `n` rounds.
  abbrev pub Ends : ℕ → List Round → Text → Opened → Type 0
  Ends zero rounds text o = EndsNow rounds text o
  Ends (suc n) (read more err ∷ rounds) text o = Ends n rounds (text ++ more) o
  Ends (suc n) _ text o = ⊥

  after_read-Decision :
      (text : Text) (err : Option ReadError) → IsIdle text → Decision text err (after_read err)
  after_read-Decision text none idle = left idle refl
  after_read-Decision text (some eof) idle = ended idle refl
  after_read-Decision text (some (broken e)) idle = cut e idle refl

  on_text-Decision :
      (text : Text) (err : Option ReadError) → Decision text err (on_text inspect text err)
  unfolding on_text
  on_text-Decision text err = elim (Bool-cases (inspect text).0) [
    | inl means ↦ elim (Bool-cases (inspect text).1) [
      | inl over ↦ simp (means, over) (meant means)
      | inr open_still ↦ simp (means, open_still) (meant means)
    ]
    | inr silent ↦ elim (Bool-cases (inspect text).1) [
      | inl over ↦ simp (silent, over) (emptied silent over)
      | inr open_still ↦ elim (Bool-cases (is_long text)) [
        | inl long ↦ simp (silent, open_still, long) (enough silent open_still long)
        | inr short ↦
            simp (silent, open_still, short)
              (after_read-Decision text err (silent, open_still, short))
      ]
    ]
  ]

  left_no_error : (text : Text) (err : Option ReadError) → Decision text err none → err ≡ none
  left_no_error text err d = no_error_of none d refl
    where
      no_error_of : (o : Option Opened) → Decision text err o → o ≡ none → err ≡ none
      no_error_of o (emptied a b) e = cc e
      no_error_of o (meant a) e = cc e
      no_error_of o (enough a b c) e = cc e
      no_error_of o (ended a b) e = cc e
      no_error_of o (cut x a b) e = cc e
      no_error_of o (left a b) e = b

  go_on :
      (rounds : List Round) (text more : Text) (err : Option ReadError)
      → on_text inspect (text ++ more) err ≡ none
      → prefetch_loop inspect (read more err ∷ rounds) text
        ≡ prefetch_loop inspect rounds (text ++ more)
  unfolding prefetch_loop
  go_on rounds text more err h = rw (h, prefetch_loop) refl

  stop_here :
      (rounds : List Round) (text more : Text) (err : Option ReadError) (o : Opened)
      → on_text inspect (text ++ more) err ≡ some o
      → prefetch_loop inspect (read more err ∷ rounds) text ≡ some o
  unfolding prefetch_loop
  stop_here rounds text more err o h = rw (h, prefetch_loop) refl

  -- The loop ends when a final round comes, at the first decision.
  prefetch_loop-Ends :
      (rounds : List Round) (text : Text)
      → any is_final rounds ≡ true
      → (o : Opened) × (prefetch_loop inspect rounds text ≡ some o)
        × (n : ℕ) × Waits n rounds text
        × Ends n rounds text o
  unfolding prefetch_loop
  prefetch_loop-Ends [] text f = cc f
  prefetch_loop-Ends (late ∷ rounds) text f = (dropped first_byte_timeout, refl, zero, tt, refl)
  prefetch_loop-Ends (timed_out ∷ rounds) text f =
      (dropped first_byte_timeout, refl, zero, tt, refl)
  prefetch_loop-Ends (cancelled ∷ rounds) text f = (dropped context_error, refl, zero, tt, refl)
  prefetch_loop-Ends (read more err ∷ rounds) text f =
      elim (Option-cases (on_text inspect (text ++ more) err)) [
        | inr (o, decided) ↦
            let d =
              subst (Decision (text ++ more) err) decided (on_text-Decision (text ++ more) err) in
            (o, stop_here rounds text more err o decided, zero, tt, d)
        | inl undecided ↦
            let d =
              subst (Decision (text ++ more) err) undecided (on_text-Decision (text ++ more) err) in
            let (o, e, n, waits, ends) =
              prefetch_loop-Ends rounds (text ++ more)
                (later more err rounds (left_no_error (text ++ more) err d) f) in
            (o, go_on rounds text more err undecided ∙ e, suc n, (d, waits), ends)
      ]

module _ (decode_chunk : Text → Option (List StreamChoice)) (decode : Text → Option Value) where
  abbrev pub inspect : Text → Bool × Bool
  inspect = inspect_open_ai_stream_prefetch decode_chunk decode

  -- How openUpstreamStreamWithPrefetch ends.
  pub data Fate (rounds : List Round) : Headers → Opened → Type 0 where
    unmade : (e : GoError) → Fate rounds (no_request e) (failed (transport_error e) (cancel ∷ []))
    unanswered :
        (e : GoError) → Fate rounds (no_response e) (failed (transport_error e) (cancel ∷ []))
    overdue : Fate rounds headers_late (failed first_byte_timeout (cancel ∷ []))
    abandoned : Fate rounds headers_cancelled (failed context_error (cancel ∷ []))
    relayed :
        (code : ℕ) → ltb code 200 || leb 400 code ≡ true → Fate rounds (status code) (passed code)
    looked :
        {o : Opened} (code n : ℕ)
        → ltb code 200 || leb 400 code ≡ false
        → Waits inspect n rounds []
        → Ends inspect n rounds [] o
        → Fate rounds (status code) o

  -- Whatever the service sends, openUpstreamStreamWithPrefetch ends, once a round of its loop is
  -- final. Without headers, the request is cancelled, and the error is the transport's, the
  -- timeout's or the context's; a status outside 200 to 399 is passed on as it is. With any other
  -- status the loop reads on while the text so far says nothing meaningful, is not done, is
  -- shorter than 64 KB and no read fails; the round that ends this decides. All the text so far is
  -- handed over if it is meaningful, or if it is 64 KB long and not done. Otherwise the body is
  -- closed and the request cancelled, with the error for an empty answer if the stream is done or
  -- at its end and nothing meaningful has come, and else with that of the timeout, the context or
  -- the read.
  pub open_upstream_stream_with_prefetch-Fate :
      (h : Headers) (rounds : List Round)
      → any is_final rounds ≡ true
      → (o : Opened) × (open_upstream_stream_with_prefetch decode_chunk decode h rounds ≡ some o)
        × Fate rounds h o
  unfolding open_upstream_stream_with_prefetch
  open_upstream_stream_with_prefetch-Fate (no_request e) rounds f =
      (failed (transport_error e) (cancel ∷ []), refl, unmade e)
  open_upstream_stream_with_prefetch-Fate (no_response e) rounds f =
      (failed (transport_error e) (cancel ∷ []), refl, unanswered e)
  open_upstream_stream_with_prefetch-Fate headers_late rounds f =
      (failed first_byte_timeout (cancel ∷ []), refl, overdue)
  open_upstream_stream_with_prefetch-Fate headers_cancelled rounds f =
      (failed context_error (cancel ∷ []), refl, abandoned)
  open_upstream_stream_with_prefetch-Fate (status code) rounds f =
      elim (Bool-cases (ltb code 200 || leb 400 code)) [
        | inl outside ↦ (passed code, rw outside refl, relayed code outside)
        | inr inside ↦
            let (o, e, n, waits, ends) = prefetch_loop-Ends inspect rounds [] f in
            (o, rw inside e, looked code n inside waits ends)
      ]
