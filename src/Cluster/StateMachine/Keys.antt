-- ===== src/Cluster/StateMachine/Keys.antt =====
-- Which keys the state machine treats specially.
use crabgresql.Prelude.{ℕ, ◌≡◌, refl, true, false}
use crabgresql.Bytes.{bytes_eq}
use crabgresql.Bytes.BigEndian.{be_bytes}
use crabgresql.Kv.Keyenc.{put_u32, put_u64}
use crabgresql.Kv.Key.{system_prefix, next_xid_key, seq_key, clog_prefix, clog_key}
use crabgresql.Cluster.StateMachine.{is_seq_key, is_counter_key, is_clog_key}

pub is_clog_key-clog_key : (xid : ℕ) → is_clog_key (clog_key xid) ≡ true
unfolding is_clog_key clog_key clog_prefix system_prefix put_u32 put_u64 be_bytes bytes_eq
is_clog_key-clog_key xid = refl

pub is_counter_key-clog_key : (xid : ℕ) → is_counter_key (clog_key xid) ≡ false
unfolding is_counter_key is_seq_key seq_key next_xid_key clog_key system_prefix put_u32 put_u64
    be_bytes bytes_eq
is_counter_key-clog_key xid = refl

pub is_counter_key-seq_key : (table_id : ℕ) → is_counter_key (seq_key table_id) ≡ true
unfolding is_counter_key is_seq_key seq_key next_xid_key system_prefix put_u32 be_bytes bytes_eq
is_counter_key-seq_key table_id = refl

pub is_counter_key-next_xid_key : is_counter_key next_xid_key ≡ true
unfolding is_counter_key is_seq_key seq_key next_xid_key system_prefix put_u32 be_bytes bytes_eq
is_counter_key-next_xid_key = refl
