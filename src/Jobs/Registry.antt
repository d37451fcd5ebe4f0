-- ===== src/Jobs/Registry.antt =====
-- The registration of handlers.
use dynamis_code_apps_templa.Prelude.{
  ◌≡◌, ◌≢◌, refl, sym, ap, text_eq_refl, true, false, Option, none, some, Text, arith, lookup,
  lookup-insert, text_eq_iff, is_some,
}
use dynamis_code_apps_templa.Jobs.{
  Queue, Handler, already_registered, register, register_exhausted, is_blank,
}

-- Every kind with a handler for exhausted jobs has a handler.
abbrev pub IsPaired : Queue → Type 0
IsPaired queue =
    (kind : Text)
    → is_some (lookup kind queue.exhausted) ≡ true
    → is_some (lookup kind queue.handlers) ≡ true

register-IsPaired :
    (queue : Queue) (kind : Text) (handler : Option Handler)
    → IsPaired queue
    → IsPaired (register queue kind handler).0
unfolding register
register-IsPaired queue kind none h k paired = h k paired
register-IsPaired queue kind (some handler) h k paired =
    ground (arith, h k, lookup-insert kind k handler queue.handlers)

register_exhausted-IsPaired :
    (queue : Queue) (kind : Text) (handler : Option Handler)
    → IsPaired queue
    → IsPaired (register_exhausted queue kind handler).0
unfolding register_exhausted
register_exhausted-IsPaired queue kind none h k paired = h k paired
register_exhausted-IsPaired queue kind (some handler) h k paired = ground (
  arith,
  h k,
  lookup-insert kind k handler queue.exhausted,
  text_eq_iff kind k,
  ap (λ j. is_some (lookup j queue.handlers)),
)

-- What an accepted registration tells of the queue.
accepted :
    (queue : Queue) (kind : Text) (handler : Handler)
    → (register queue kind (some handler)).1 ≡ none
    → (is_blank kind ≡ false)
      × (queue.started ≡ false)
      × (is_some (lookup kind queue.handlers) ≡ false)
unfolding register
accepted queue kind handler h = ground arith

-- A handler that is registered is found under its kind, the other kinds keep theirs, and a second
-- handler for the kind is refused and changes nothing.
pub register_lem :
    (queue : Queue) (kind : Text) (handler other : Handler)
    → (register queue kind (some handler)).1 ≡ none
    → (lookup kind (register queue kind (some handler)).0.handlers ≡ some handler)
      × ((k : Text)
          → k ≢ kind
          → lookup k (register queue kind (some handler)).0.handlers ≡ lookup k queue.handlers)
      × (register (register queue kind (some handler)).0 kind (some other)
          ≡ ((register queue kind (some handler)).0, some already_registered))
unfolding register
register_lem queue kind handler other h =
    let (named, stopped, unknown) = accepted queue kind handler h in
    rw (named, stopped, unknown)
      (
        rw (lookup-insert kind kind handler queue.handlers, text_eq_refl kind) refl,
        λ k ne. ground (
          arith,
          lookup-insert kind k handler queue.handlers,
          text_eq_iff kind k,
          λ (e : kind ≡ k). ne (sym e),
        ),
        rw (lookup-insert kind kind handler queue.handlers, text_eq_refl kind) refl,
      )
