-- ===== src/Cli/Daemon/Replies.antt =====
-- What the daemon sends to a connection, whatever the other connections do.
use langshell.Common.{
  ℕ, ◌≡◌, refl, subst, Bool, true, false, not, Bool-cases, inl, inr, eqb, String, Option, none,
  some, List, [], ◌∷◌, ◌++◌, map, Result, ok, err,
}
use langshell.Sdk.{LanguageRuntime, LangShell}
use langshell.Cli.Rpc.{RpcResponse, Formats, handle_rpc_request}
use langshell.Cli.Rpc.Responses.{IsResponse, id_of, handle_rpc_request-IsResponse}
use langshell.Cli.Daemon.{
  Event, Turn, Daemon, is_blank, write_both, writes, is_going, has_ended, answered, turn_line, turn,
  after_turn, step, serve,
}
use langshell.Cli.Daemon.Sent.{
  sent_to, sent_to-append, sent_to-own, sent_to-other, eqb-eq, own-stays, other-stays,
}

module _ (formats : Formats) (to_string : RpcResponse → String) where
  -- What one turn sends, and whether the connection stays: a blank line is passed over, any other has a response
  -- of JSON-RPC 2.0 with its id and then the end of a line, as far as the writes succeed.
  pub data Replied (event : Event) : Bool → List String → Type 0 where
    unreadable : {e : String} → event.next_line ≡ err e → Replied event false []
    closed : event.next_line ≡ ok none → Replied event false []
    blank :
        {line : String}
        → event.next_line ≡ ok (some line)
        → is_blank line ≡ true
        → Replied event true []
    unwritten :
        {line e : String}
        → event.next_line ≡ ok (some line)
        → is_blank line ≡ false
        → event.text_written ≡ err e
        → Replied event false []
    cut :
        {line e : String} {response : RpcResponse}
        → event.next_line ≡ ok (some line)
        → is_blank line ≡ false
        → IsResponse (id_of (formats.from_str line)) response
        → event.newline_written ≡ err e
        → Replied event false (to_string response ∷ [])
    replied :
        {line : String} {response : RpcResponse}
        → event.next_line ≡ ok (some line)
        → is_blank line ≡ false
        → IsResponse (id_of (formats.from_str line)) response
        → Replied event true (to_string response ∷ "\n" ∷ [])

  -- What a connection is sent in a series of events, where the flag says that it stays.
  pub data Replies (c : ℕ) : Bool → List Event → List String → Type 0 where
    nothing : {stays : Bool} → Replies c stays [] []
    late :
        {event : Event} {events : List Event} {texts : List String}
        → Replies c false events texts
        → Replies c false (event ∷ events) texts
    other :
        {stays : Bool} {event : Event} {events : List Event} {texts : List String}
        → eqb event.connection c ≡ false
        → Replies c stays events texts
        → Replies c stays (event ∷ events) texts
    own :
        {stays : Bool} {event : Event} {events : List Event} {texts more : List String}
        → eqb event.connection c ≡ true
        → Replied event stays texts
        → Replies c stays events more
        → Replies c true (event ∷ events) (texts ++ more)

  module _ {S W : Type 0} (rt : LanguageRuntime S W) where
    write_both-Replied :
        (event : Event) (line : String) (response : RpcResponse)
        (text newline : Result String (Unit {0}))
        → event.text_written ≡ text
        → event.newline_written ≡ newline
        → event.next_line ≡ ok (some line)
        → is_blank line ≡ false
        → IsResponse (id_of (formats.from_str line)) response
        → let r = write_both (to_string response) text newline in Replied event (is_going r.0) r.1
    unfolding write_both
    write_both-Replied event line response (err e) newline h h' read full is =
        Replied.unwritten read full h
    write_both-Replied event line response (ok u) (err e) h h' read full is =
        Replied.cut read full is h'
    write_both-Replied event line response (ok u) (ok v) h h' read full is =
        Replied.replied read full is

    answered-Replied :
        (event : Event) (line : String) (shell : LangShell S) (w : W)
        → event.next_line ≡ ok (some line)
        → is_blank line ≡ false
        → let t =
            answered formats to_string rt event (handle_rpc_request formats rt shell line w) in
          Replied event (is_going t.goes_on) t.written
    unfolding answered writes
    answered-Replied event line shell w read full =
        write_both-Replied event line (handle_rpc_request formats rt shell line w).0.0
          event.text_written event.newline_written refl refl read full
          (handle_rpc_request-IsResponse formats rt shell line w)

    turn_line-Replied :
        (event : Event) (line : Result String (Option String)) (shell : LangShell S) (w : W)
        → event.next_line ≡ line
        → let t = turn_line formats to_string rt event line shell w in
          Replied event (is_going t.goes_on) t.written
    unfolding turn_line
    turn_line-Replied event (err e) shell w read = Replied.unreadable read
    turn_line-Replied event (ok none) shell w read = Replied.closed read
    turn_line-Replied event (ok (some line)) shell w read = elim (Bool-cases (is_blank line)) [
      | inl empty ↦ rw empty (Replied.blank read empty)
      | inr full ↦ rw full (answered-Replied event line shell w read full)
    ]

    turn-Replied :
        (event : Event) (shell : LangShell S) (w : W)
        → let t = turn formats to_string rt event shell w in
          Replied event (is_going t.goes_on) t.written
    unfolding turn
    turn-Replied event shell w = turn_line-Replied event event.next_line shell w refl

    -- The events after one, for a connection that it is or is not about.
    abbrev Rest : ℕ → List Event → Daemon S W → Type 0
    Rest c events daemon =
        Replies c (not (has_ended c daemon.ended)) events
          (sent_to c (serve formats to_string rt events daemon).0)

    late-Replies :
        (c : ℕ) (event : Event) (events : List Event) (daemon : Daemon S W)
        → has_ended event.connection daemon.ended ≡ true
        → Rest c events daemon
        → Rest c (event ∷ events) daemon
    unfolding serve step sent_to
    late-Replies c event events daemon gone rest = elim (Bool-cases (eqb event.connection c)) [
      | inl mine ↦
          let gone' : has_ended c daemon.ended ≡ true =
            subst (λ x. has_ended x daemon.ended ≡ true) (eqb-eq event.connection c mine) gone in
          rw (gone, gone')
            (Replies.late (
              subst
                (λ b.
                  Replies c (not b) events (sent_to c (serve formats to_string rt events daemon).0))
                gone' rest))
      | inr theirs ↦ rw gone (Replies.other theirs rest)
    ]

    -- The daemon after a turn of an event.
    abbrev after : Event → Daemon S W → Turn S W → Daemon S W
    after event daemon t = after_turn formats to_string rt event.connection daemon.ended t

    -- What is sent from a turn on.
    abbrev From : ℕ → Event → List Event → Daemon S W → Turn S W → Type 0
    From c event events daemon t = Replies c (not (has_ended c daemon.ended)) (event ∷ events) (
        sent_to c (
          map (λ text. (event.connection, text)) t.written
          ++ (serve formats to_string rt events (after event daemon t)).0))

    own-Replies :
        (c : ℕ) (event : Event) (events : List Event) (daemon : Daemon S W) (t : Turn S W)
        → has_ended event.connection daemon.ended ≡ false
        → eqb event.connection c ≡ true
        → Replied event (is_going t.goes_on) t.written
        → Rest c events (after event daemon t)
        → From c event events daemon t
    own-Replies c event events daemon t stays mine replied_now rest =
        let n = event.connection in
        let stays' = subst (λ x. has_ended x daemon.ended ≡ false) (eqb-eq n c mine) stays in
        let more = (serve formats to_string rt events (after event daemon t)).0 in
        let kept : Replies c (is_going t.goes_on) events (sent_to c more) =
          subst (λ b. Replies c b events (sent_to c more))
            (own-stays c n daemon.ended t.goes_on mine stays) rest in
        rw
          (
            stays',
            sent_to-append c (map (λ text. (n, text)) t.written) more,
            sent_to-own c n t.written mine,
          )
          (Replies.own mine replied_now kept)

    other-Replies :
        (c : ℕ) (event : Event) (events : List Event) (daemon : Daemon S W) (t : Turn S W)
        → eqb event.connection c ≡ false
        → Rest c events (after event daemon t)
        → From c event events daemon t
    other-Replies c event events daemon t theirs rest =
        let n = event.connection in
        let more = (serve formats to_string rt events (after event daemon t)).0 in
        let kept : Replies c (not (has_ended c daemon.ended)) events (sent_to c more) =
          subst (λ b. Replies c (not b) events (sent_to c more))
            (other-stays c n daemon.ended (is_going t.goes_on) theirs) rest in
        rw
          (
            sent_to-append c (map (λ text. (n, text)) t.written) more,
            sent_to-other c n t.written theirs,
          )
          (Replies.other theirs kept)

    -- For all events of all connections in any order, a connection that is open is sent this and nothing else:
    -- for each line that it reads, in order, nothing if it is blank, else a response of JSON-RPC 2.0 with the id
    -- of that line and the end of a line; until a read or a write of the connection fails or its lines end.
    -- A connection that has ended is sent nothing.
    pub serve-Replies :
        (events : List Event) (daemon : Daemon S W) (c : ℕ)
        → Replies c
            (not (has_ended c daemon.ended))
            events
            (sent_to c (serve formats to_string rt events daemon).0)
    unfolding serve step sent_to
    serve-Replies [] daemon c = Replies.nothing
    serve-Replies (event ∷ events) daemon c =
        let t = turn formats to_string rt event daemon.shell daemon.world in
        elim (Bool-cases (has_ended event.connection daemon.ended)) [
          | inl gone ↦ late-Replies c event events daemon gone (serve-Replies events daemon c)
          | inr stays ↦ elim (Bool-cases (eqb event.connection c)) [
            | inl mine ↦ rw stays (
                own-Replies c event events daemon t stays mine
                  (turn-Replied event daemon.shell daemon.world)
                  (serve-Replies events (after event daemon t) c))
            | inr theirs ↦ rw stays (
                other-Replies c event events daemon t theirs
                  (serve-Replies events (after event daemon t) c))
          ]
        ]
