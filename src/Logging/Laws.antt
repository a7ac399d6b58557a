-- ===== src/Logging/Laws.antt =====
-- The identifiers in both formats, and what a second configuration does.
use data_api.Prelude.{ℕ, true, ◌++◌, Option, none, some, [], ◌∷◌, ◌≡◌, refl}
use data_api.Text.{Text}
use data_api.Logging.{LogRecord, filter, format_text, Platform, Loggers, configure_logging}

-- A line of text has the identifier of the context that it was logged in, with the filter or without it.
format_text-filter :
    (context : Option Text) (r : LogRecord)
    → r.request_id ≡ none
    → format_text context (filter context r) ≡ format_text context r
unfolding format_text filter
format_text-filter none r h = refl
format_text-filter (some []) r h = refl
format_text-filter (some (c ∷ id)) r h = rw h refl

-- A second configuration closes the handlers of the first, and leaves as many as it, not twice as many.
configure_logging_again :
    (env : Platform) (level log_format : Text) (path : Option Text) (max_mb backups : ℕ)
    (w : Loggers)
    → env.is_level (env.upper level) ≡ true
    → (let (done, x) = configure_logging env level log_format path max_mb backups w in
        configure_logging env level log_format path max_mb backups x)
      ≡ (let (done, x) = configure_logging env level log_format path max_mb backups w in
          (true, record x { closed = x.closed ++ x.handlers }))
unfolding configure_logging
configure_logging_again env level log_format path max_mb backups w h = rw h refl
