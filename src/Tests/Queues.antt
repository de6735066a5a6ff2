-- ===== src/Tests/Queues.antt =====
-- The queue of a session and its ids.
use flash_mq.Base.{◌≡◌, refl, true, false, [], ◌∷◌, ◌∙◌, none, some, arith}
use flash_mq.Base.Text.{codes}
use flash_mq.UsedIds
use flash_mq.UsedIds.{contains}
use flash_mq.UsedIds.Members.{insert-Changes, init-IsValid}
use flash_mq.QosData
use flash_mq.QosData.{QosData}
use flash_mq.QosQueue.{
  Publish, Memory, QosPublishQueue, queue_publish, erase, empty, clear_expired_messages,
  add_to_expiration_queue, emplace, clear_loop, is_alive, assign, find,
}
use flash_mq.QosQueue.Fifo.{Represents}
use flash_mq.QosQueue.Spec.{empty-Represents, erase-Represents, queue_publish-Represents}
use flash_mq.QosQueue.Expiry.{drop_ids, clear_expired_messages-Represents}
use flash_mq.Session.{Session, clear_qos_message, store_publish}
use flash_mq.Session.Agreement.{Stored, clear_qos_message-Cleared, store_publish-Stored}
use flash_mq.Session.Drops.{Agrees, Agrees-any}

abbrev lasting : Publish
lasting = record { topic = codes "a/b"; payload = 1 ∷ []; expires_at = none }

abbrev short : Publish
short = record { topic = codes "c"; payload = 1 ∷ 2 ∷ []; expires_at = some 10 }

abbrev memory : Memory
memory _ = record { publish = lasting; packet_id = 0; prev = none; next = none }

abbrev queue_of_one : QosPublishQueue
queue_of_one = queue_publish lasting 1 (empty memory)

queue_of_one-Represents : Represents queue_of_one ((1, lasting) ∷ [])
queue_of_one-Represents =
    queue_publish-Represents (empty memory) [] 1 lasting (empty-Represents memory) refl

abbrev queue_of_two : QosPublishQueue
queue_of_two = queue_publish short 2 queue_of_one

queue_publish-Represents_example : Represents queue_of_two ((1, lasting) ∷ (2, short) ∷ [])
queue_publish-Represents_example =
    queue_publish-Represents queue_of_one ((1, lasting) ∷ []) 2 short queue_of_one-Represents refl

erase-Represents_example :
    Represents (erase 1 queue_of_two).0 ((2, short) ∷ []) × ((erase 1 queue_of_two).1 ≡ true)
erase-Represents_example =
    erase-Represents queue_of_two ((1, lasting) ∷ (2, short) ∷ []) 1
      queue_publish-Represents_example

clear_expired_messages-Represents_example :
    Represents
      (clear_expired_messages (λ _. 11) queue_of_two).0
      (drop_ids (clear_expired_messages (λ _. 11) queue_of_two).1 ((1, lasting) ∷ (2, short) ∷ []))
clear_expired_messages-Represents_example =
    clear_expired_messages-Represents (λ _. 11) queue_of_two ((1, lasting) ∷ (2, short) ∷ [])
      queue_publish-Represents_example

second_expires : (clear_expired_messages (λ _. 11) queue_of_two).1 ≡ 2 ∷ []
unfolding clear_expired_messages queue_publish add_to_expiration_queue emplace clear_loop is_alive
    assign find
second_expires = refl

abbrev session : Session
session = record {
  qos = record (QosData.init 10) { used_ids = UsedIds.insert 1 UsedIds.init; next_packet_id = 1 };
  queue = queue_of_one;
  destroy_on_disconnect = false;
  last_expired_messages_at = 0;
}

session-Agrees : Agrees session ((1, lasting) ∷ [])
unfolding QosData.init
session-Agrees =
    let (valid, reads) = insert-Changes 1 UsedIds.init init-IsValid.0 (omega arith) in
    record {
      stands = queue_of_one-Represents;
      valid = valid;
      small = λ j h. ground arith;
      used = λ j h. reads j (ground arith) ∙ ground arith;
    }

-- The same session when it has become one that ends with its connection.
abbrev ending : Session
ending = record session { destroy_on_disconnect = true }

still_queued :
    ((clear_qos_message 1 true ending).0.queue ≡ queue_of_one)
    × ((clear_qos_message 1 true ending).1 ≡ true)
    × (contains (clear_qos_message 1 true ending).0.qos.used_ids 1 ≡ false)
still_queued =
    clear_qos_message-Cleared ending ((1, lasting) ∷ []) 1 true
      (Agrees-any session ((1, lasting) ∷ []) true session-Agrees) (omega arith)

clear_qos_message-Cleared_example :
    Agrees (clear_qos_message 1 true session).0 [] × ((clear_qos_message 1 true session).1 ≡ true)
clear_qos_message-Cleared_example =
    clear_qos_message-Cleared session ((1, lasting) ∷ []) 1 true session-Agrees (omega arith)

store_publish-Stored_example :
    Stored short session ((1, lasting) ∷ []) (store_publish 100 short session)
store_publish-Stored_example =
    store_publish-Stored 100 short session ((1, lasting) ∷ []) session-Agrees (omega arith)
