-- ===== src/Broker.antt =====
-- internal/broker/broker.go: errors that a broker marks as transient.
use rtk_account_manager.Common.{
  Bool, true, false, Option, none, some, GoError, wrapped, publish_error, delivery_error,
}

-- Transient(err); `none` is the nil error
unfoldable pub transient : Option GoError → Option GoError
transient none = none
transient (some e) = some (publish_error e true)

-- IsTransient(err): the first error of the chain that has a method Transient decides
unfoldable pub is_transient : GoError → Bool
is_transient (publish_error e b) = b
is_transient (wrapped s e) = is_transient e
is_transient (delivery_error e b) = is_transient e
is_transient _ = false
