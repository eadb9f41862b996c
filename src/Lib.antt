-- ===== src/Lib.antt =====
-- The Luna engine and provider for OpenSSL, which send RSA, DSA, EC and post-quantum operations to a
-- Thales Luna HSM through its PKCS#11 library.
--
-- The program has two layers. The engine (engine/e_gem.c) loads the PKCS#11 library, keeps one session
-- context for each call, a cache of idle sessions for each of two slots, the PINs of the slots and the
-- configuration. The provider (lunaProvider/) is the OpenSSL 3 face: its operations open a context of
-- the engine, call the library and close the context again; lunaProvider/lunaCommon.c holds what its
-- files share.
--
-- What models what:
--   Prelude: numbers, lists, integers and C strings (a string is the list of its bytes before the 0).
--   Cryptoki: the PKCS#11 library and SHA-1, which are parameters. A call takes and returns the state
--     of the library. SessionRules and DigestRules are what the PKCS#11 standard and SHA-1 promise.
--   Engine/Memory: LUNA_malloc, LUNA_cleanse and the redzone behind a block.
--   Engine/Config: g_preconfig, g_config, g_postconfig and the getters.
--   Engine/Password: the PIN store, from LUNA_PBKDF2_F to LUNA_pw_login.
--   Engine/Slotid: luna_parse_slotid2, luna_parse_session_desc and luna_label_to_slotid;
--     Engine/Slotid/Secret has luna_parse_password.
--   Engine/Session/State, Cache, Commands, Init, Context, Close: the globals as one record, and the
--     functions on it, each named as in the source; the whole of an operation is a function from
--     globals to globals. luna_open_context_ndx and luna_close_context_w_err are cut at their
--     comments into the steps that they are made of.
--   Engine/Session/World: a process with its threads. A step is one critical section of one thread, a
--     fork() or a new context; steps come in any order. The two loops that sleep until another thread
--     has changed a global are conditions on the step that goes on behind them.
--   The other modules of Engine/Session are proofs: Moves, Lifecycle, Taking, Opening, Returning and
--     Closing say what each function does to the sessions; Owners, Transfer, Handover, Ownership and
--     Exclusive who owns a session; Counting and Finishing the mutex and the counts; Steady,
--     Process and Opened the start and the end of the library; Reuse and Purge the cache; Severity the errors;
--     Leak the callback of luna_fini_p11.
--   Provider/Rng: the random numbers for PQC, from luna_pqc_rng to luna_pqc_rng_hw_pkcs11, on the
--     session contexts of the engine.
--   Provider/Algorithms: the table algtab, its include and exclude lists and its lookup. The rows of
--     the table are an argument, so that the theorems hold for every table. Lookup, Lists, Kept and
--     Listed are proofs.
--   Provider/Base64, Keyshare, Names: the encodings.
--   Provider/Blob: the private key bytes of a key in the HSM, which hold the labels of its two objects
--     (lunaProvider/lunaPqcSig.c); RoundTrip, Text, Labels, Encoding and Filling are proofs.
--   Provider/KeyLock: the lock of a key context for reading and writing. A thread's step is one
--     critical section of the mutex, one round of a loop that sleeps included; steps come in any
--     order. Counts, Exclusion, Ranks, Progress and Fairness are proofs.
--   Provider/Key: the operations on a key in the HSM. State has the key context, and KeyCalls, the
--     PKCS#11 calls on objects, which are a parameter like Cryptoki; Find, Export, Gen and Sign the
--     parts that call PKCS#11; Firmware the codes of the main firmware; Ops LUNA_OQS_keypair and what
--     the other operations are made of, on the session contexts of the engine; Wrap the key pair by
--     which a secret leaves the HSM, with SecretCalls, the calls of PKCS#11 and of OpenSSL that it
--     needs; Peer, Encap and Decap LUNA_OQS_KEM_encaps and LUNA_OQS_KEM_decaps. ObjectRules (Objects),
--     SecretRules (Unwrapping) and DestroyRules (Decapsulation) are what PKCS#11 and RSA promise of
--     the calls that answer CKR_OK; SearchRules (Active) is what PKCS#11 says of a second search in a
--     session. Steady, Once, Fresh, Found, Active, Unwrapping, Encapsulation and Decapsulation are
--     proofs.
--   Tests: a small library that keeps the rules, and an example for each result.
--
-- Bounds and fuel: loops are recursion on lists or on the number of rounds; no definition runs on
-- fuel but the decimal printer, which is given the number itself plus one. luna_count_c_init wraps at
-- 2^32 and skips 0; a step that opens a context is taken only below the wrap, since a context of 2^32
-- starts ago would pass for a new one. `atoi` is faithful where the value fits in an int. The counters
-- of statistics do not wrap. Outside Engine/Memory memory allocation succeeds, except for the size
-- limit in luna_label_to_slotid.
--
-- The operations on keys are those of a build without LUNA_OSSL_FIND_2_OBJECTS, LUNA_OSSL_CALL_FINAL
-- and LUNA_OSSL_3_4, one operation of one thread at a time; the lock that keeps writers of the key away
-- is modelled by itself. The numbers of a mechanism's parameter that are the same in every call are
-- left out.
--
-- Not modelled: the RSA, DSA and EC operations, the slices of hybrid keys, reading the configuration
-- files, logs and profiles, the capabilities and dispatch tables of OpenSSL, the copy of oqs-provider,
-- samples and builds.
pub mod Prelude
pub mod Cryptoki
pub mod Engine
pub mod Provider
pub mod Tests
