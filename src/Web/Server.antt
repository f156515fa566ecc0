-- ===== src/Web/Server.antt =====
-- main of src/main.cpp around the handlers, and handle_signal: the server object with its settings,
-- the signals, the collector thread, and the end. The server is the library's, a parameter.
use bartimaeus_app.Base.{
  ℕ, ◌*◌, ◌≡◌, refl, ◌≢◌, ◌↔◌, Bool, true, false, List, [], ◌∷◌, Option, none, some, All,
  if◌then◌else◌,
}
use bartimaeus_app.Base.Bytes.{Bytes, bytes}

-- httplib::SSLServer; `false` for a constructor that throws, `none` for a listen that does.
pub record HttpLibrary (S : Type 0) : Type 0 where
  pub construct : Bytes → Bytes → S → Bool × S
  pub set_payload_max_length : ℕ → S → S
  pub set_default_headers : List (Bytes × Bytes) → S → S
  pub listen : Bytes → ℕ → S → Option Bool × S
  pub stop : S → S

-- `svr` tells whether the server object exists, and `global_svr` whether the global pointer was set
-- to it; `gc_threads` counts the collector threads that run.
pub record Process (S : Type 0) : Type 0 where
  pub library : S
  pub svr : Bool
  pub global_svr : Bool
  pub handles_signals : Bool
  pub gc_threads : ℕ

abbrev pub process : {S : Type 0} → S → Process S
process s = record {
  library = s;
  svr = false;
  global_svr = false;
  handles_signals = false;
  gc_threads = 0;
}

unfoldable pub default_headers : List (Bytes × Bytes)
default_headers =
    (
      bytes "Content-Security-Policy",
      bytes "default-src 'self'; script-src 'self'; style-src 'self' 'unsafe-inline'",
    )
    ∷ (bytes "X-Content-Type-Options", bytes "nosniff")
    ∷ (bytes "X-Frame-Options", bytes "DENY")
    ∷ (bytes "X-XSS-Protection", bytes "1; mode=block")
    ∷ []

-- What main returns, the states that it passed while the server object was there, and the last one.
pub record Ended (S : Type 0) : Type 0 where
  pub status : ℕ
  pub passed : List (Process S)
  pub last : Process S

module _ {S : Type 0} (http : HttpLibrary S) where
  -- `none` is a call on an object that is no longer there: undefined behaviour.
  unfoldable pub handle_signal : Process S → Option (Process S)
  handle_signal p =
      if p.global_svr
      then (if p.svr then some (record p { library = http.stop p.library }) else none)
      else some p

  -- The destructors at the end of the try block: the thread is stopped and joined first, the server
  -- object goes last. No one resets the global pointer.
  leave_block : Process S → Process S
  leave_block p = record p { gc_threads = 0; svr = false }

  listened : Option Bool → ℕ
  listened none = 1
  listened (some ok) = if ok then 0 else 1

  -- The payload's limit, and the headers of every response
  configure : Process S → Process S
  unfolding default_headers
  configure p = record p {
    library =
        http.set_default_headers default_headers
          (http.set_payload_max_length (1024 * 1024) p.library);
  }

  -- std::signal for SIGINT and SIGTERM
  install_signals : Process S → Process S
  install_signals p = record p { handles_signals = true }

  -- From the construction on
  serving : S → Ended S
  unfolding leave_block listened configure install_signals
  serving s =
      let made = record (process s) { svr = true; global_svr = true } in
      let set = configure made in
      let ready = install_signals set in
      let collecting = record ready { gc_threads = 1 } in
      let (answer, s') = http.listen (bytes "0.0.0.0") 9090 collecting.library in
      let stopped = record collecting { library = s' } in
      record {
        status = listened answer;
        passed = made ∷ set ∷ ready ∷ collecting ∷ stopped ∷ [];
        last = leave_block stopped;
      }

  constructed : Bool → S → Ended S
  unfolding serving
  constructed false s = record { status = 1; passed = []; last = process s }
  constructed true s = serving s

  unfoldable pub main : S → Ended S
  unfolding constructed
  main s =
      let (ok, s') = http.construct (bytes "./certs/cert.pem") (bytes "./certs/key.pem") s in
      constructed ok s'

  -- A signal finds the server, or no pointer to it.
  abbrev pub IsHandled : Process S → Type 0
  IsHandled p = handle_signal p ≢ none

  -- How main ends: with no thread and no server object left.
  pub record IsEnd (made : Bool) (e : Ended S) : Type 0 where
    pub handled : All IsHandled e.passed
    pub joined : e.last.gc_threads ≡ 0
    pub destroyed : e.last.svr ≡ false
    pub dangling : (handle_signal e.last ≡ none) ↔ (made ≡ true)

  constructed-IsEnd : (made : Bool) (s : S) → IsEnd made (constructed made s)
  unfolding constructed handle_signal
  constructed-IsEnd false s = record {
    handled = tt;
    joined = refl;
    destroyed = refl;
    dangling = (λ e. cc, λ e. cc);
  }
  constructed-IsEnd true s = record {
    handled = (λ e. cc, (λ e. cc, (λ e. cc, (λ e. cc, (λ e. cc, tt)))));
    joined = refl;
    destroyed = refl;
    dangling = (λ e. refl, λ e. refl);
  }

  -- While main has its server object, a signal stops that object; when main is left, the collector
  -- thread is joined and the object is gone, and a signal that comes then is undefined behaviour,
  -- exactly if the object had been constructed.
  main-IsEnd :
      (s : S)
      → IsEnd (http.construct (bytes "./certs/cert.pem") (bytes "./certs/key.pem") s).0 (main s)
  unfolding main
  main-IsEnd s = constructed-IsEnd _ _
