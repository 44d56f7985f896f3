-- ===== src/Daemon/Planned.antt =====
-- The parts of a round of manager/src/Daemon.cpp do to the manager what their plans say.
use improved_process_manager.Base.{
  ℕ, zero, suc, ◌+◌, ◌≡◌, refl, sym, ap, subst, ◌∙◌, Bool, true, false, ◌||◌, List, [], ◌∷◌, ◌++◌,
  Option, none, some, if◌then◌else◌,
}
use improved_process_manager.Command.{CommandCode, CommandMessage, command_code_from_byte}
use improved_process_manager.Daemon.{
  Daemon, World, Sent, send, reload_with, reload_daemon, execute_command, serve, handle_commands,
}
use improved_process_manager.Daemon.Histories.{run_all-append}
use improved_process_manager.Daemon.Plan.{
  readable, parsed_plan, next_read, is_reload, reload_plan, command_plan,
}
use improved_process_manager.Manager.Operations.{Operation, run, run_all}
use improved_process_manager.Parser.{Parsed, failed, parsed}
use improved_process_manager.Parser.Files.{parse_file}
use improved_process_manager.Parser.Lexing.{is_empty}
use improved_process_manager.Parser.Settings.{Config}
use improved_process_manager.Server.{Frame, Received, RequestCode, receive, new_request}
use improved_process_manager.Service.{Instant}

-- What plans are read off, but for the number of reads.
abbrev pub SameView : Daemon → Daemon → Type 0
SameView d e =
    (e.config.path ≡ d.config.path)
    × (e.stopping ≡ d.stopping)
    × (e.shutdown_deadline ≡ d.shutdown_deadline)
    × (e.next_publish ≡ d.next_publish)
    × (e.samples ≡ d.samples)

SameView-trans : (a b c : Daemon) → SameView a b → SameView b c → SameView a c
SameView-trans a b c (p, q, r, s, t) (p', q', r', s', t') = (p' ∙ p, q' ∙ q, r' ∙ r, s' ∙ s, t' ∙ t)

if_append {ℓ} :
    {A : Type ℓ} (b : Bool) (xs : List A) (x : A) (ys : List A)
    → (if b then xs else x ∷ []) ++ ys ≡ (if b then xs ++ ys else x ∷ ys)
if_append true xs x ys = refl
if_append false xs x ys = refl

module _ (world : World) where
  -- The manager is what a list of operations makes of it, after so many reads of the file.
  pub record Does (os : List Operation) (reads : ℕ) (d e : Daemon) : Type 0 where
    pub manager : e.manager ≡ run_all world.host os d.manager
    pub view : SameView d e
    pub reads_done : e.reads ≡ reads

  pub Does-nothing : (d : Daemon) → Does [] d.reads d d
  unfolding run_all
  Does-nothing d = record {
    manager = refl;
    view = (refl, refl, refl, refl, refl);
    reads_done = refl;
  }

  pub Does-trans :
      (os ps : List Operation) (m n : ℕ) (a b c : Daemon)
      → Does os m a b
      → Does ps n b c
      → Does (os ++ ps) n a c
  Does-trans os ps m n a b c h k = record {
    manager =
        k.manager
        ∙ (ap (run_all world.host ps) h.manager ∙ sym (run_all-append world.host os ps a.manager));
    view = SameView-trans a b c h.view k.view;
    reads_done = k.reads_done;
  }

  -- A test that the program makes in two steps.
  Does-or :
      {X : Type 0} (a b : Bool) (os ps : List Operation) (m n : ℕ) (d : Daemon) (x y z : Daemon × X)
      → Does os m d x.0
      → Does os m d y.0
      → Does ps n d z.0
      → Does
          (if a || b then os else ps)
          (if a || b then m else n)
          d
          (if a then x else if b then y else z).0
  Does-or true b os ps m n d x y z h k l = h
  Does-or false true os ps m n d x y z h k l = k
  Does-or false false os ps m n d x y z h k l = l

  pub Does-if :
      (b : Bool) (os ps : List Operation) (m n : ℕ) (d x y : Daemon)
      → Does os m d x
      → Does ps n d y
      → Does (if b then os else ps) (if b then m else n) d (if b then x else y)
  Does-if true os ps m n d x y h k = h
  Does-if false os ps m n d x y h k = k

  reload_with-Does :
      (now : Instant) (r : Parsed Config) (d : Daemon)
      → Does
          (parsed_plan now r)
          (d.reads + 1)
          d
          (reload_with world now r (record d { reads = d.reads + 1 })).0
  unfolding reload_with parsed_plan run_all run
  reload_with-Does now (failed error) d = record {
    manager = refl;
    view = (refl, refl, refl, refl, refl);
    reads_done = refl;
  }
  reload_with-Does now (parsed fresh) d = record {
    manager = refl;
    view = (refl, refl, refl, refl, refl);
    reads_done = refl;
  }

  pub reload_daemon-Does :
      (now : Instant) (d : Daemon)
      → Does
          (reload_plan world d.config.path d.stopping d.reads now)
          (next_read d.config.path d.stopping d.reads)
          d
          (reload_daemon world now d).0
  unfolding reload_daemon reload_plan next_read
  reload_daemon-Does now d =
      let read = parse_file world.paths d.config.path (world.file d.reads) in
      Does-or (is_empty d.config.path) d.stopping [] (parsed_plan now read) d.reads (d.reads + 1) d
        _ _ _ (Does-nothing d) (Does-nothing d) (reload_with-Does now read d)

  executed-Does :
      (message : CommandMessage) (now : Instant) (d : Daemon)
      → Does
          (Operation.executes message now ∷ [])
          d.reads
          d
          (record d { manager = run world.host (Operation.executes message now) d.manager })
  unfolding run_all
  executed-Does message now d = record {
    manager = refl;
    view = (refl, refl, refl, refl, refl);
    reads_done = refl;
  }

  -- What one command that can be read does.
  execute_command-Does :
      (code : Option CommandCode) (message : CommandMessage) (now : Instant) (d : Daemon)
      → Does
          (if is_reload code
            then reload_plan world d.config.path d.stopping d.reads now
            else Operation.executes message now ∷ [])
          (if is_reload code then next_read d.config.path d.stopping d.reads else d.reads)
          d
          (execute_command world code message now d).0
  unfolding execute_command run
  execute_command-Does none message now d = executed-Does message now d
  execute_command-Does (some CommandCode.reload) message now d = reload_daemon-Does now d
  execute_command-Does (some CommandCode.start) message now d = executed-Does message now d
  execute_command-Does (some CommandCode.stop) message now d = executed-Does message now d
  execute_command-Does (some CommandCode.restart) message now d = executed-Does message now d
  execute_command-Does (some CommandCode.heartbeat) message now d = executed-Does message now d

  -- A command and those behind it.
  command_step :
      (c : CommandMessage) (cs : List CommandMessage) (now : Instant) (d e f : Daemon) (n : ℕ)
      → Does
          (if is_reload (command_code_from_byte c.command)
            then reload_plan world d.config.path d.stopping d.reads now
            else Operation.executes c now ∷ [])
          (if is_reload (command_code_from_byte c.command)
            then next_read d.config.path d.stopping d.reads
            else d.reads)
          d
          e
      → Does (command_plan world e.config.path e.stopping e.reads now cs) n e f
      → Does (command_plan world d.config.path d.stopping d.reads now (c ∷ cs)) n d f
  unfolding command_plan
  command_step c cs now d e f n h k =
      let reloads = is_reload (command_code_from_byte c.command) in
      let reloaded = reload_plan world d.config.path d.stopping d.reads now in
      let reads = if reloads then next_read d.config.path d.stopping d.reads else d.reads in
      let rest = command_plan world d.config.path d.stopping reads now cs in
      let same : command_plan world e.config.path e.stopping e.reads now cs ≡ rest =
        ap (λ p. command_plan world p e.stopping e.reads now cs) h.view.0
        ∙ (ap (λ b. command_plan world d.config.path b e.reads now cs) h.view.1
            ∙ ap (λ k. command_plan world d.config.path d.stopping k now cs) h.reads_done) in
      subst (λ os. Does os n d f) (if_append reloads reloaded (Operation.executes c now) rest)
        (Does-trans _ rest _ n d e f h (subst (λ os. Does os n e f) same k))

  sent_Does :
      (s : Sent) (os : List Operation) (n : ℕ) (d e : Daemon)
      → Does os n d e
      → Does os n d (send s e)
  sent_Does s os n d e h = record { manager = h.manager; view = h.view; reads_done = h.reads_done }

  idle : (d : Daemon) (inbox : List (List Frame)) → Does [] d.reads d (record d { inbox = inbox })
  unfolding run_all
  idle d inbox = record { manager = refl; view = (refl, refl, refl, refl, refl); reads_done = refl }

  -- What the loop owes for the messages that are left.
  abbrev Rest : ℕ → Instant → List (List Frame) → Daemon → Type 0
  Rest left now inbox d =
      Does (command_plan world d.config.path d.stopping d.reads now (readable left inbox))
        (handle_commands world left now d inbox).reads d (handle_commands world left now d inbox)

  abbrev behind : ℕ → Instant → List (List Frame) → Daemon → Option Daemon → Daemon
  behind left now inbox d none = record d { inbox = inbox }
  behind left now inbox d (some next) = handle_commands world left now next inbox

  abbrev some_in : Option Daemon → Daemon → Daemon
  some_in none d = d
  some_in (some next) d = next

  abbrev read_in : ℕ → List (List Frame) → Received → List CommandMessage
  read_in left inbox r = elim r.code [
    | RequestCode.empty ↦ []
    | RequestCode.malformed ↦ readable left inbox
    | RequestCode.ok ↦ r.request.command ∷ readable left inbox
  ]

  served_Does :
      (left : ℕ) (now : Instant) (inbox : List (List Frame)) (d : Daemon) (r : Received)
      (code : RequestCode)
      → ((e : Daemon) → Rest left now inbox e)
      → Does
          (command_plan world d.config.path d.stopping d.reads now
            (read_in left inbox (record r { code = code })))
          (behind left now inbox d (serve world (record r { code = code }) now d)).reads
          d
          (behind left now inbox d (serve world (record r { code = code }) now d))
  unfolding serve command_plan
  served_Does left now inbox d r RequestCode.empty rest = idle d inbox
  served_Does left now inbox d r RequestCode.malformed rest =
      let e = some_in (serve world (record r { code = RequestCode.malformed }) now d) d in
      Does-trans [] _ d.reads _ d e _ (sent_Does _ [] d.reads d d (Does-nothing d)) (rest e)
  served_Does left now inbox d r RequestCode.ok rest =
      let e = some_in (serve world (record r { code = RequestCode.ok }) now d) d in
      command_step r.request.command (readable left inbox) now d e _ _
        (sent_Does _ _ _ d _ (execute_command-Does _ r.request.command now d)) (rest e)

  pub handle_commands-Does :
      (left : ℕ) (now : Instant) (d : Daemon) (inbox : List (List Frame))
      → Does
          (command_plan world d.config.path d.stopping d.reads now (readable left inbox))
          (handle_commands world left now d inbox).reads
          d
          (handle_commands world left now d inbox)
  unfolding handle_commands readable command_plan
  handle_commands-Does zero now d inbox = idle d inbox
  handle_commands-Does (suc left) now d [] = idle d []
  handle_commands-Does (suc left) now d (message ∷ inbox) =
      let r = receive (some message) (new_request []) [] in
      served_Does left now inbox d r r.code (λ e. handle_commands-Does left now e inbox)
