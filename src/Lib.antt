-- ===== src/Lib.antt =====
-- CyberX event management: a model of the services of backend/app that keep the rules of an
-- event: who may do what, which licenses are given out, which emails are sent, and how
-- redirector ports are shared. Each service works on tables of one database. A table is a
-- list of rows in the order of insertion, a service's database is a record of the tables that
-- it reads and writes, and an operation is a function from the database, the time and its
-- arguments to the new database and its answer. The services share only the tables, but for
-- the workflows, which call the email queue, and the participants, which call both.
--
-- Files:
-- - Base: tables and their queries (Base.Rows, Base.Keys), lists, tests, and results with
--   exceptions.
-- - License: services/license_service.py and models/license.py. Products, single-use tokens
--   (generate_token, validate_and_consume_token) and the queue of installation slots
--   (acquire_slot, release_slot, reap_expired_slots). acquire_slot is in two halves, the
--   count and insert_slot, because no lock joins them.
-- - EmailQueue: services/email_queue_service.py and models/email_queue.py. enqueue_email with
--   its duplicate checks, process_batch with its retries, cancel_email and
--   bulk_cancel_emails.
-- - Redirector: the streams of services/redirector_service.py and models/redirector.py, that
--   is create_stream, update_stream, delete_stream, the collision check and the allocation of
--   bridge ports.
-- - Auth: services/auth_service.py, models/session.py and tasks/session_cleanup.py
--   (sessions), utils/permissions.py and models/user.py (permissions), and dependencies.py
--   (the guards of requests and PermissionChecker).
-- - VpnDelete: services/vpn_delete_service.py and models/vpn_delete_job.py. The jobs that
--   delete VPN credentials in chunks: queue_delete_by_ids, queue_delete_all,
--   claim_next_pending_job, process_job, retry_job, delete_job, cleanup_old_jobs.
-- - Agent: services/agent_service.py, models/agent_task.py and get_current_agent_instance of
--   dependencies.py. The tasks of instance agents with their timeouts, and the binding of an
--   agent to its address.
-- - Vpn: services/vpn_service.py, models/vpn.py and AgentService.cycle_vpn. The pool of VPN
--   credentials (assign_vpn, request_vpns, bulk_assign, assign_vpn_to_instance, the
--   assignment types), concurrent claims of its rows (Vpn.Pool.Concurrency), removals,
--   cycles, and the texts of configurations (parse_wireguard_config,
--   generate_wireguard_config).
-- - Event: services/event_service.py, models/event.py, the routes of api/routes/admin.py that
--   create, update, activate, archive and toggle events, and those of api/routes/event.py
--   that create and edit them.
-- - Workflow: services/workflow_service.py and models/email_workflow.py. trigger_workflow and
--   send_immediate, over the events, the users and enqueue_email of EmailQueue.
-- - Participant: services/participant_service.py, the confirmation routes of
--   api/routes/public.py, queue_invitation_email_for_user of services/email_service.py, the
--   creation and the update of participants in api/routes/admin.py, utils/name_utils.py and
--   api/utils/validation.py. The calls write users, sessions, participations, VPN
--   credentials, emails and the password sync queue, and trigger Workflow.
-- Histories: License.History, EmailQueue.History, Auth.Sessions.Logout and Event.Lifecycle
-- have the calls of a service as data, a step for each and the run of a list of calls.
-- Redirector.Streams.History is a relation between stream tables, and what is reached from
-- the empty one. Vpn.Pool.Concurrency is a step relation on a table with the claims of open
-- transactions.
--
-- Conventions: a time is a natural number of microseconds, an argument of each operation.
-- What the code takes from outside is a parameter: the hash of tokens, the password check,
-- the lower case and normalization of texts, the random ids and tokens, and the answer of the
-- mail service. A unique column is a check that raises the integrity error. ORDER BY keeps
-- rows with equal keys in their order of insertion, and ORDER BY random() sorts by any
-- numbering of the ids; the rows that other transactions lock are an argument. A text that is
-- parsed is a list of code points. The sessions do not flush before a query
-- (autoflush=False). The text of an exception stands without the numbers and names that the
-- code formats into it, except where a guard joins permissions and in the routes of
-- Participant. What the calls of Participant take from outside stands in one record,
-- Participant.Data.Env, and the tables of users that Auth, EmailQueue and Workflow read are
-- views of its own (as_auth, as_recipient, workflow_db). A loop is over a list, over the 999
-- ports of the bridge range, or over the chunks of a deletion job, of which there are (length
-- + 199) / 200, enough for all ids.
--
-- Not modelled: the HTTP routes but those of Event and Participant, schemas, the rendering of
-- emails and documents, and the clients of external services (SSH, step-ca, PowerDNS,
-- Keycloak, cloud providers, object storage); database calls that fail for other reasons than
-- a constraint; log lines.
pub mod Base
pub mod Agent
pub mod Auth
pub mod EmailQueue
pub mod Event
pub mod License
pub mod Participant
pub mod Redirector
pub mod Vpn
pub mod VpnDelete
pub mod Workflow
