-- ===== src/Net/Error.antt =====
-- kernel/net/src/lib.rs: the errors of the stack.
use project_qlinux.Qkey.{KeyError}

pub data NetError : Type 0 where
  arp_pending no_peer no_session not_established would_block : NetError
  auth_failed malformed payload_too_large device_full table_full : NetError
  key_error : KeyError → NetError
