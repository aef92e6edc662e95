-- ===== src/Lib.antt =====
-- A model of dlcdevkit, which builds and executes discreet log contracts (DLCs) on Bitcoin: two
-- parties lock funds in one output, and an oracle's attestation of an outcome decides how they are paid.
--
-- The repository is a workspace of crates. `dlc` builds the transactions of a contract: the fund
-- transaction, one contract execution transaction (CET) for each payout, and the refund. `dlc-trie`
-- cuts a numeric outcome into digits, so that a prefix of signed digits stands for a range of outcomes.
-- `dlc-messages` holds what the parties send, `ddk-manager` drives contracts and channels, and the
-- crates `ddk`, `ddk-node`, `kormir` and `payouts` are applications.
--
-- What is modelled where:
--   Base and its children: lists, the results of code that fails or panics (Outcome), machine
--     words (Word), and doubles as far as the code computes with them (Float).
--   Dlc.Types: the data of dlc/src/lib.rs, and a record Bitcoin of what the crate calls of others.
--   Dlc.Util: dlc/src/util.rs: fees by weight, ordering by serial ids, dust.
--   Dlc.Fees: PartyParams::get_change_output_and_fees of dlc/src/lib.rs, and dlc/src/dlc_input.rs.
--   Dlc.Fund: create_fund_transaction_with_fees and create_funding_transaction.
--   Dlc.Cets: create_cets_and_refund_tx, create_cets, create_cet, create_refund_transaction.
--   Dlc.Contract: create_dlc_transactions, create_spliced_dlc_transactions.
--   Dlc.Channel: create_channel_transactions, create_renewal_channel_transactions,
--     create_settle_transaction, create_collaborative_close_transaction of dlc/src/channel/mod.rs.
--   Trie.Digits: decompose_value, compose_value and pad_range_payouts of
--     dlc-trie/src/digit_decomposition.rs.
--   Trie.Group: group_by_ignoring_digits of the same file, one function for each of its loops.
--   Trie.Combinations: dlc-trie/src/combination_iterator.rs, with the iterator's vector.
--   Messages.Segments: dlc-messages/src/segmentation/mod.rs and segment_reader.rs.
--   Messages.Handler: dlc-messages/src/message_handler.rs: sending and receiving, over a record Codec
--     of what the code calls of the lightning crate and of generated serializations. The table of
--     types that are read is a definition.
--   Manager.Input: ddk-manager/src/contract/contract_input.rs.
--   Manager.Monitor: ddk-manager/src/chain_monitor.rs, with its hash maps as lists (Maps).
--   Manager.Contract: the states of a contract in ddk-manager/src/contract and what is read of them.
--   Manager.Store: the contracts of ddk/src/storage/sled/contract.rs.
--   Manager.Environment: all that the manager calls, as a record, and its state.
--   Manager.Handlers, Manager.Closing, Manager.Periodic: the functions of ddk-manager/src/manager.rs on
--     contracts: messages, closings and refunds, and the periodic checks.
--     Manager.Handlers.Offering, Accepting and Signing have the results of an offer, an accept and a sign
--     message as relations.
--     Manager.Closing.Attested says what the attestations are that close a contract.
--   Manager.Diagram: the states of a confirmed contract, and of one that waits to be, as a step relation,
--     with what each step needs; its children are named for the functions that are shown to follow it.
--   Kormir.Messages: the announcements and attestations of dlc-messages/src/oracle_msgs.rs with their
--     checks, over a record Schnorr of what is called of secp256k1 and of the hash.
--   Kormir.Events: create_enum_event, sign_enum_event, create_numeric_event, sign_numeric_event,
--     get_max_value and get_min_value of kormir/src/lib.rs.
--   Kormir.Storage: MemoryStorage of kormir/src/storage.rs.
--   Kormir.Oracle: the four calls of Oracle in kormir/src/lib.rs over that storage.
--
-- Conventions. Amounts and lengths are natural numbers, and each operation that the code checks or
-- that wraps says so at 2 ^ 64. A panic is the value `panicked`, so that a theorem that a call is
-- `ok` excludes assertion failures and overflows of `Amount`. A loop whose end is not
-- structural runs on fuel, and running out is an error of its own (`out_of_fuel`): decompose_value has
-- 66 rounds, since a 64-bit value has at most 64 digits, and group_by_ignoring_digits has
-- (base + 1) * (nb_digits + 1), since every round drops a digit or raises one. The search over
-- combinations has nb_elements ^ nb_selected rounds and one more, since the combinations are distinct
-- numbers of nb_selected digits.
--
-- Arithmetic that panics or wraps by the kind of build is that of a release build, which wraps. In
-- Manager.Contract, get_fund_output_index is a number also where no output has the funding script and the code
-- panics: what is modelled of the manager is to be read for contracts whose fund transaction has that output.
--
-- Not modelled: elliptic curve operations, signatures and hashes, which are foreign code; the
-- transports, wallets and servers, which are input and output; the tries over digits and oracles, the
-- payout curves, ddk-manager/src/contract_updater.rs, which the manager's environment stands for, and
-- the protocols of channels. The calls of kormir and of the manager come one at a time: interleavings of
-- their futures, and storages other than those named, are not modelled.
pub mod Base
pub mod Dlc
pub mod Kormir
pub mod Manager
pub mod Messages
pub mod Trie
