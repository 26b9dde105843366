-- ===== src/Parser/Stable/Later.antt =====
-- What later chunks leave of a path that is reported complete.
use jawohl.Prelude.{
  ℕ, Bool, true, false, ◌≡◌, refl, sym, if◌then◌else◌, ◌∙◌, List, [], Option, none, some, Bytes,
}
use jawohl.Event.{Event, IsVerdict}
use jawohl.Value.{Value, complete, incomplete, is_complete}
use jawohl.Parser.State.{
  Expect, Frame, Parser, Tok, idle, str, num, lit, ok, push_event, drain_events, set_max_depth,
  set_enforce_plain_decimal,
}
use jawohl.Parser.Feed.{feed, finish}
use jawohl.Parser.Snapshot.{snapshot, token_value}
use jawohl.Parser.Valid.{IsValid, RootFits, TokFits}
use jawohl.Parser.Reach.{Reach, Reach-IsValid}
use jawohl.Stream.Status.{descend_from, status_at, is_open_container}
use jawohl.Parser.Stable.{Frozen, at_root, descend-Frozen}
use jawohl.Parser.Stable.Steps.{Settled, feed-Settled, finish-Settled}
use jawohl.Parser.Stable.Complete.{complete-Settled}
use jawohl.Parser.Stable.Walk.{AllCanonical}

-- A parser with a root has no token.
token-rooted :
    (e : Expect) (t : Tok) (v : Value) → RootFits e (some v) → TokFits t e → token_value t ≡ none
unfolding token_value
token-rooted Expect.done idle v r f = refl
token-rooted Expect.done (str d s true n) v r f = absurd f
token-rooted Expect.done (str d s false n) v r f = cc
token-rooted Expect.done (num text s) v r f = cc
token-rooted Expect.done (lit text) v r f = cc
token-rooted _ t v r f = cc

Frozen-idle :
    {tokens : List Bytes} {v : Value} {stack : List Frame} {root : Option Value} (e : Expect)
    (t : Tok)
    → Frozen tokens v stack root
    → RootFits e root
    → TokFits t e
    → stack ≡ []
    → token_value t ≡ none
Frozen-idle e t (at_root {r} d) rf tf s = token-rooted e t r rf tf
Frozen-idle e t _ rf tf s = cc

-- In a well-formed state the snapshot has the settled value.
snapshot-Settled :
    (tokens : List Bytes) (v : Value) (p : Parser)
    → IsValid 0 p
    → Settled tokens v p
    → descend_from tokens (snapshot p) ≡ some v
unfolding snapshot
snapshot-Settled tokens v p i s =
    descend-Frozen s (token_value p.tok) (Frozen-idle p.expect p.tok s i.rooted i.token)

-- `q` comes after `p`: chunks are accepted, the settings are changed, the log is drained or told a
-- verdict, and the input ends. A chunk that is refused is not among them.
pub data After (p : Parser) : Parser → Type 0 where
  now : After p p
  limited : {q : Parser} (depth : ℕ) → After p q → After p (set_max_depth depth q)
  enforced : {q : Parser} (on : Bool) → After p q → After p (set_enforce_plain_decimal on q)
  pushed : {q r : Parser} (bytes : Bytes) → After p q → feed bytes q ≡ ok tt r → After p r
  drained : {q : Parser} → After p q → After p (drain_events q).1
  told : {q : Parser} (e : Event) → IsVerdict e → After p q → After p (push_event e q)
  finished : {q r : Parser} → After p q → finish q ≡ ok tt r → After p r

pub Reach-After : {p q : Parser} → Reach p → After p q → Reach q
Reach-After r now = r
Reach-After r (limited depth a) = Reach.limited depth (Reach-After r a)
Reach-After r (enforced on a) = Reach.enforced on (Reach-After r a)
Reach-After r (pushed bytes a e) = Reach.pushed bytes (Reach-After r a) e
Reach-After r (drained a) = Reach.drained (Reach-After r a)
Reach-After r (told e is a) = Reach.told e is (Reach-After r a)
Reach-After r (finished a e) = Reach.finished (Reach-After r a) e

pub Settled-After :
    (tokens : List Bytes) (v : Value) {p q : Parser}
    → Reach p
    → Settled tokens v p
    → After p q
    → Settled tokens v q
unfolding drain_events set_max_depth set_enforce_plain_decimal
Settled-After tokens v r s now = s
Settled-After tokens v r s (limited depth a) = Settled-After tokens v r s a
Settled-After tokens v r s (enforced on a) = Settled-After tokens v r s a
Settled-After tokens v r s (pushed {q} bytes a e) =
    let (fresh, i) = Reach-IsValid (Reach-After r a) in
    rw e at (feed-Settled tokens v bytes q fresh i (Settled-After tokens v r s a))
Settled-After tokens v r s (drained a) = Settled-After tokens v r s a
Settled-After tokens v r s (told e is a) = Settled-After tokens v r s a
Settled-After tokens v r s (finished {q} a e) =
    let (fresh, i) = Reach-IsValid (Reach-After r a) in
    rw e at (finish-Settled tokens v q fresh i (Settled-After tokens v r s a))

pub status-found :
    (tokens : List Bytes) (v : Value) (q : Parser)
    → descend_from tokens (snapshot q) ≡ some v
    → is_complete v ≡ true
    → status_at tokens q ≡ (if is_open_container tokens q then incomplete else complete)
unfolding status_at
status-found tokens v q e whole = rw (e, whole)

-- A path that a reachable state reports complete keeps its value after every later chunk that is
-- accepted, change of the settings, drain of the log and end of the input; it is reported complete
-- from then on, unless it names the path of a container in flight. An index among its tokens is
-- spelled as it is printed. Nothing is said here of a chunk that is refused.
pub complete-stays :
    (tokens : List Bytes) {p q : Parser}
    → Reach p
    → AllCanonical tokens
    → status_at tokens p ≡ complete
    → After p q
    → (descend_from tokens (snapshot q) ≡ descend_from tokens (snapshot p))
      × (status_at tokens q ≡ (if is_open_container tokens q then incomplete else complete))
complete-stays tokens {p} {q} r canonical e a =
    let (v, found, whole, s) = complete-Settled tokens p canonical e in
    let kept : descend_from tokens (snapshot q) ≡ some v =
      snapshot-Settled tokens v q (Reach-IsValid (Reach-After r a)).1
        (Settled-After tokens v r s a) in
    (kept ∙ sym found, status-found tokens v q kept whole)
