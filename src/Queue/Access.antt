-- ===== src/Queue/Access.antt =====
-- `Queue` of src/queue.rs: the state of the tristate lock that each of its methods takes before it
-- calls the method of the same name of `InnerQueue`. `checkpoint` and `maintenance` take a mutex of
-- their own first, and change the queue though they hold the lock for reading.
use floki.Prelude.{Bool, true, false}

pub data Method : Type 0 where
  config_cloned set_config create_channel delete_channel purge_channel iter_channels : Method
  get push push_many ack purge info delete : Method
  seek_channel_to_id seek_channel_to_timestamp checkpoint maintenance : Method

pub data Access : Type 0 where
  reading writing exclusive : Access

abbrev pub access : Method → Access
access config_cloned = reading
access set_config = exclusive
access create_channel = exclusive
access delete_channel = exclusive
access purge_channel = reading
access iter_channels = reading
access get = reading
access push = writing
access push_many = writing
access ack = reading
access purge = exclusive
access info = reading
access delete = exclusive
access seek_channel_to_id = reading
access seek_channel_to_timestamp = reading
access checkpoint = reading
access maintenance = reading

-- Whether `maintenance_mutex` is held.
abbrev pub maintains : Method → Bool
maintains checkpoint = true
maintains maintenance = true
maintains _ = false
