-- ===== src/Gateway/Shutdown.antt =====
-- pkg/gateway/gateway.go and cmd/gateway/main.go: the shutdown of the servers.
use arks.Prelude.{
  none, ◌⊎◌, inl, ◌↔◌, Bool, ◌∷◌, inr, some, refl, ◌++◌, ◌≡◌, arith, if◌then◌else◌, Option, ap,
  Option-cases, List, [], sym, ◌∙◌, ℕ,
}
use arks.Prelude.Text.{Text, text}

pub data ServerKind : Type 0 where
  http metrics grpc : ServerKind

-- What the servers answer: `none` for one that was not started, else the error of `Shutdown`, and for gRPC
-- whether the context was done before `GracefulStop` returned.
pub record Stops : Type 0 where
  pub http_stop : Option (Option Text)
  pub metrics_stop : Option (Option Text)
  pub grpc_stop : Option Bool

abbrev labelled_error : Text → Option (Option Text) → Option Text
labelled_error front none = none
labelled_error front (some none) = none
labelled_error front (some (some message)) = some (front ++ message)

abbrev grpc_error : Option Bool → Option Text
grpc_error none = none
grpc_error (some timed_out) = if timed_out then some (text "gRPC server shutdown timeout") else none

-- What the goroutine of a server sends to the channel.
unfoldable pub stop_error : Stops → ServerKind → Option Text
stop_error s http = labelled_error (text "HTTP server shutdown error: ") s.http_stop
stop_error s metrics = labelled_error (text "Metrics server shutdown error: ") s.metrics_stop
stop_error s grpc = grpc_error s.grpc_stop

abbrev add_error : Option Text → List Text → List Text
add_error none errors = errors
add_error (some e) errors = e ∷ errors

-- The errors in the order in which the goroutines send them.
unfoldable pub sent_errors : Stops → List ServerKind → List Text
unfolding stop_error
sent_errors s [] = []
sent_errors s (kind ∷ rest) = add_error (stop_error s kind) (sent_errors s rest)

abbrev write_errors : List Text → Text
write_errors [] = []
write_errors (e ∷ rest) = e ++ (text "; " ++ write_errors rest)

abbrev shutdown_error : List Text → Option Text
shutdown_error [] = none
shutdown_error (e ∷ rest) = some (text "shutdown errors: " ++ write_errors (e ∷ rest))

-- `GracefullyShutdown`, where the goroutines end in the order `order`.
unfoldable pub gracefully_shutdown : List ServerKind → Stops → Option Text
unfolding sent_errors
gracefully_shutdown order s = shutdown_error (sent_errors s order)

-- The exit code of `main` after a signal.
unfoldable pub exit_code : Option Text → ℕ
exit_code none = 0
exit_code (some e) = 1

abbrev pub Ends : ServerKind → List ServerKind → Type 0
Ends kind [] = ⊥
Ends kind (k ∷ rest) = (k ≡ kind) ⊎ Ends kind rest

sent_errors-nil :
    (s : Stops) (order : List ServerKind)
    → (sent_errors s order ≡ [])
      ↔ ((kind : ServerKind) → Ends kind order → stop_error s kind ≡ none)
unfolding sent_errors
sent_errors-nil s [] = (λ h kind m. absurd m, λ h. refl)
sent_errors-nil s (k ∷ rest) = elim (Option-cases (stop_error s k)) [
  | inl e ↦
      let (to, from) = sent_errors-nil s rest in
      rw e (
        λ h kind m. elim m [ inl p ↦ ap (stop_error s) (sym p) ∙ e | inr q ↦ to h kind q ],
        λ h. from (λ kind m. h kind (inr m)),
      )
  | inr (message, e) ↦ rw e (λ h. cc, λ h. cc (e, h k (inl refl)))
]

shutdown_error-none : (errors : List Text) → (shutdown_error errors ≡ none) ↔ (errors ≡ [])
shutdown_error-none [] = (λ h. refl, λ h. refl)
shutdown_error-none (e ∷ rest) = (λ h. cc, λ h. cc)

exit_code-zero : (o : Option Text) → (exit_code o ≡ 0) ↔ (o ≡ none)
unfolding exit_code
exit_code-zero none = (λ h. refl, λ h. refl)
exit_code-zero (some e) = (λ h. absurd (omega (arith, h)), λ h. cc)

-- In whatever order the servers end, once all of them have ended the process exits with 0 exactly when each
-- server that was started has shut down without an error, and gRPC in time.
pub gracefully_shutdown_iff :
    (s : Stops) (order : List ServerKind)
    → ((kind : ServerKind) → Ends kind order)
    → (exit_code (gracefully_shutdown order s) ≡ 0)
      ↔ ((kind : ServerKind) → stop_error s kind ≡ none)
unfolding gracefully_shutdown
gracefully_shutdown_iff s order all =
    let (to, from) = exit_code-zero (shutdown_error (sent_errors s order)) in
    let (to', from') = shutdown_error-none (sent_errors s order) in
    let (to'', from'') = sent_errors-nil s order in
    (λ h kind. to'' (to' (to h)) kind (all kind), λ h. from (from' (from'' (λ kind m. h kind))))
