-- ===== src/Runtime/Paths.antt =====
-- xrStringToPath of android-runtime/session.cpp as a numbering of texts: repeatable and injective for
-- the texts that fit a record, and not repeatable for longer ones.
pub mod Table
mod Steps
use axrb.Common.{
  ℕ, zero, suc, ◌+◌, u64, ◌≤◌, ◌<◌, ◌≡◌, ◌≢◌, ◌⊎◌, inl, inr, refl, sym, ap, ◌∙◌, subst, Bool, true,
  false, Option, none, some, List, [], ◌∷◌, ◌++◌, length, take, length-take, length-append,
  append-nil, append_assoc, arith, Bool-cases, Option-cases, leb,
}
use axrb.Xr.{XrResult, Handle, success}
use axrb.Runtime.{Runtime, Reply, PathRecord, max_paths, loaded, is_valid_instance}
use axrb.Runtime.Path.{stored_text, starts_with_slash, path_text, find_text, intern, string_to_path}
use axrb.Runtime.Calls.{Call, interns_path, step, run, run_induction, AllCalls, KeepsInstance}
use axrb.Runtime.Bounds.{InBounds}
use Table.{
  Numbered, find_text_sound, path_text-append_new, path_text-append, find_text-append,
  find_text-append_new, find_text_long, take_all,
}
use Steps.{
  Interned, with_path, string_to_path-Interned, PathTable, step-PathTable, run-PathTable, Grows,
  run-Grows,
}

-- `p` is the path of `text`, both ways.
record Known (text : List ℕ) (p : ℕ) (r : Runtime) : Type 0 where
  found : find_text r.paths text ≡ some p
  shows : path_text r.paths p ≡ text
  positive : 1 ≤ p
  below : p < 1 + length r.paths

found-Known :
    (text : List ℕ) (p : ℕ) (r : Runtime)
    → PathTable r
    → find_text r.paths text ≡ some p
    → Known text p r
found-Known text p r v e =
    let s = find_text_sound 1 r.paths text p v.numbered e in
    record { found = e; shows = s.2; positive = s.0; below = s.1 }

new-Known :
    (text : List ℕ) (r : Runtime)
    → PathTable r
    → find_text r.paths text ≡ none
    → length text ≤ 127
    → Known text r.next_path (with_path text r)
new-Known text r v e l = record {
  found = find_text-append_new r.paths _ text e (take_all 127 text l);
  shows =
      path_text-append_new 1 r.paths _ r.next_path v.numbered refl
        (omega (arith, v.bounds.next_path_exact))
      ∙ take_all 127 text l;
  positive = omega (arith, v.bounds.next_path_exact);
  below = omega (
    arith,
    v.bounds.next_path_exact,
    length-append r.paths (record { path = r.next_path; text = stored_text text } ∷ []),
  );
}

Interned-Known :
    (text : List ℕ) (r : Runtime) (reply : Reply ℕ) (p : ℕ)
    → PathTable r
    → length text ≤ 127
    → Interned text r reply
    → reply.1 ≡ some p
    → Known text p reply.2
Interned-Known text r reply p v l (inl (refused, _)) e = absurd (cc (sym refused ∙ e))
Interned-Known text r reply p v l (inr (inl (q, found, same))) e =
    rw same (found-Known text p r v (found ∙ rw same at e))
Interned-Known text r reply p v l (inr (inr (missing, _, new))) e =
    let same : r.next_path ≡ p = cc (new_path, e) in
    rw new (subst (λ k. Known text k (with_path text r)) same (new-Known text r v missing l))
  where
    new_path : reply.1 ≡ some r.next_path
    new_path = ap (λ (x : Reply ℕ). x.1) new

Known-Grows :
    (text : List ℕ) (p : ℕ) (r r' : Runtime)
    → Numbered 1 r.paths
    → Known text p r
    → Grows r.paths r'
    → Known text p r'
Known-Grows text p r r' n k g = record {
  found = rw g.1 (find_text-append r.paths g.0 text p k.found);
  shows = rw g.1 (path_text-append 1 r.paths g.0 p n k.positive k.below ∙ k.shows);
  positive = k.positive;
  below = rw g.1 (omega (arith, length-append r.paths g.0, k.below));
}

-- In a table where the text is known, a well-formed call returns its path and changes nothing.
known_answer :
    (text : List ℕ) (p : ℕ) (r : Runtime)
    → starts_with_slash text ≡ true
    → find_text r.paths text ≡ some p
    → string_to_path Handle.instance_handle (some text) true r ≡ (success, some p, r)
unfolding string_to_path is_valid_instance
known_answer text p r slash e = rw (slash, e)

interns-PathTable :
    (instance : Handle) (text : Option (List ℕ)) (out : Bool) (r : Runtime)
    → PathTable r
    → PathTable (string_to_path instance text out r).2
interns-PathTable instance text out r v =
    unfold step in step-PathTable r (interns_path instance text out) v

later-PathTable :
    (before after : List Call) (instance : Handle) (text : List ℕ) (out : Bool)
    → PathTable (run (string_to_path instance (some text) out (run loaded before)).2 after)
later-PathTable before after instance text out =
    run_induction PathTable step-PathTable _ after
      (interns-PathTable instance (some text) out _ (run-PathTable before))

later-Known :
    (before after : List Call) (instance : Handle) (text : List ℕ) (out : Bool) (p : ℕ)
    → length text ≤ 127
    → (string_to_path instance (some text) out (run loaded before)).1 ≡ some p
    → AllCalls KeepsInstance after
    → Known text p (run (string_to_path instance (some text) out (run loaded before)).2 after)
later-Known before after instance text out p l e k =
    let v = run-PathTable before in
    Known-Grows text p _ _ (interns-PathTable instance (some text) out _ v).numbered
      (Interned-Known text _ _ p v l (string_to_path-Interned instance text out _) e)
      (run-Grows _ after k)

same_path :
    (text text' : List ℕ) (p : ℕ) (r : Runtime) (reply : Reply ℕ)
    → PathTable r
    → Known text p r
    → Interned text' r reply
    → reply.1 ≡ some p
    → text' ≡ text
same_path text text' p r reply v k (inl (refused, _)) e = absurd (cc (refused, e))
same_path text text' p r reply v k (inr (inl (q, found, same))) e =
    let q-eq : q ≡ p = cc (ap (λ (x : Reply ℕ). x.1) same, e) in
    sym (found-Known text' p r v (found ∙ ap some q-eq)).shows ∙ k.shows
same_path text text' p r reply v k (inr (inr (missing, _, new))) e =
    let same : r.next_path ≡ p = cc (ap (λ (x : Reply ℕ). x.1) new, e) in
    absurd (omega (arith, v.bounds.next_path_exact, k.below))

-- What a call gives for a long text is always a new path.
long_new :
    (text : List ℕ) (q : ℕ) (r : Runtime) (reply : Reply ℕ)
    → PathTable r
    → 127 < length text
    → Interned text r reply
    → reply.1 ≡ some q
    → q ≡ length r.paths + 1
long_new text q r reply v l (inl (refused, _)) e = absurd (cc (refused, e))
long_new text q r reply v l (inr (inl (p, found, same))) e =
    absurd (cc (find_text_long r.paths text v.short l, found))
long_new text q r reply v l (inr (inr (missing, _, new))) e =
    let same : r.next_path ≡ q = cc (ap (λ (x : Reply ℕ). x.1) new, e) in
    sym same ∙ v.bounds.next_path_exact

long_grown :
    (text : List ℕ) (q : ℕ) (r : Runtime) (reply : Reply ℕ)
    → PathTable r
    → 127 < length text
    → Interned text r reply
    → reply.1 ≡ some q
    → length reply.2.paths ≡ length r.paths + 1
long_grown text q r reply v l (inl (refused, _)) e = absurd (cc (refused, e))
long_grown text q r reply v l (inr (inl (p, found, same))) e =
    absurd (cc (find_text_long r.paths text v.short l, found))
long_grown text q r reply v l (inr (inr (missing, _, new))) e = rw new (length-append r.paths _)

-- A text of at most 127 bytes keeps its path until the next xrCreateInstance: in any state that the
-- library can be in, if a call of xrStringToPath with the text gives a path, then after any calls
-- that make no instance, a well-formed call with the text succeeds, gives the same path, and changes
-- nothing.
pub string_to_path_again :
    (before after : List Call) (instance : Handle) (text : List ℕ) (out : Bool) (p : ℕ)
    → length text ≤ 127
    → starts_with_slash text ≡ true
    → (string_to_path instance (some text) out (run loaded before)).1 ≡ some p
    → AllCalls KeepsInstance after
    → let r = run (string_to_path instance (some text) out (run loaded before)).2 after in
      string_to_path Handle.instance_handle (some text) true r ≡ (success, some p, r)
string_to_path_again before after instance text out p l slash e k =
    known_answer text p _ slash (later-Known before after instance text out p l e k).found

-- From the call on that gives a path for a text of at most 127 bytes, no other text gets that path in
-- the same instance: if a call of xrStringToPath with such a text gives a path, and after calls that
-- make no instance a call with any text gives the same path, the texts are equal.
pub string_to_path_injective :
    (before after : List Call) (instance instance' : Handle) (text text' : List ℕ) (out out' : Bool)
    (p : ℕ)
    → length text ≤ 127
    → (string_to_path instance (some text) out (run loaded before)).1 ≡ some p
    → AllCalls KeepsInstance after
    → (string_to_path instance'
        (some text')
        out'
        (run (string_to_path instance (some text) out (run loaded before)).2 after)).1
      ≡ some p
    → text' ≡ text
string_to_path_injective before after instance instance' text text' out out' p l e k e' =
    let v = later-PathTable before after instance text out in
    same_path text text' p _ _ v (later-Known before after instance text out p l e k)
      (string_to_path-Interned instance' text' out' _) e'

-- The flaw: a text of 128 bytes or more is cut to 127 when it is stored, so it is not found again: if
-- a call gives a path for it, and after calls that make no instance another call gives a path for it,
-- the paths differ.
pub string_to_path_long :
    (before after : List Call) (instance instance' : Handle) (text : List ℕ) (out out' : Bool)
    (p q : ℕ)
    → 127 < length text
    → (string_to_path instance (some text) out (run loaded before)).1 ≡ some p
    → AllCalls KeepsInstance after
    → (string_to_path instance'
        (some text)
        out'
        (run (string_to_path instance (some text) out (run loaded before)).2 after)).1
      ≡ some q
    → q ≢ p
string_to_path_long before after instance instance' text out out' p q l e k e' =
    let r = run loaded before in
    let first = string_to_path-Interned instance text out r in
    let p-eq = long_new text p r _ (run-PathTable before) l first e in
    let grown = long_grown text p r _ (run-PathTable before) l first e in
    let (new, more) = run-Grows (string_to_path instance (some text) out r).2 after k in
    let q-eq =
      long_new text q _ _ (later-PathTable before after instance text out) l
        (string_to_path-Interned instance' text out' _) e' in
    omega (
      arith,
      p-eq,
      q-eq,
      grown,
      ap length more,
      length-append (string_to_path instance (some text) out r).2.paths new,
    )
