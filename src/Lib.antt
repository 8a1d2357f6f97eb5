-- ===== src/Lib.antt =====
-- Models and proofs for the framework of these system tests (cosmo_tester/framework), for its command
-- line (cosmo_tester/conf_cli.py), and for what the test suites share (cosmo_tester/test_suites): what
-- the tests use to read their configuration, to drive a manager through its REST client, to install
-- and run managers on test machines, and to move the state of one manager to another.
--
-- Parts and files
--   Prelude, Text, Dict, Value    shared names; the texts, dicts and YAML values of the code
--   Act                           code that changes state and may raise: the result comes back beside
--                                 the state. Its children say what code returns (Returns), that it
--                                 ends (Ends), how it moves the state (Moves), what a chain that
--                                 returned went through (Invert), and what the `retrying` package
--                                 promises (Retry)
--   Client                        the session of framework/util.py: the headers that requests are sent
--                                 with, the log, and the manager and the clock behind them;
--                                 Client/Tenant is set_client_tenant
--   Execution                     wait_for_execution, _fail_wait_for_execution, output_events and
--                                 run_blocking_execution of framework/util.py
--   Deployment                    create_deployment, delete_deployment, wait_for_blueprint_upload,
--                                 get_node_instances and prepare_and_get_test_tenant of
--                                 framework/util.py
--   Resources                     list_snapshots, list_executions, list_capabilities,
--                                 assert_snapshot_created, wait_for_execution_status,
--                                 get_deployment_by_blueprint, cancel_install and
--                                 validate_cluster_status of framework/util.py; Seen is about the wait
--                                 for a snapshot
--   Config                        framework/config.py: Schema is _update_schema, Generate is
--                                 _generate_config and NameSpace, Check is check_config_is_valid, and
--                                 Load is Config.__init__ and load_config
--   Host                          class VM of framework/test_hosts.py: Services is starting, stopping
--                                 and tearing down the services of a manager, Manager is its REST
--                                 client, certificate, license and override and waiting for it,
--                                 Bootstrap is bootstrap, bootstrap_is_complete and
--                                 finalize_preparation, Backup is rsync_backup and rsync_restore, and
--                                 reboot_if_required of framework/util.py for one machine
--   Hosts                         class Hosts of framework/test_hosts.py. Create is create, made of
--                                 Setup (the infrastructure manager and the infrastructure) and of
--                                 Deploy (a deployment for each machine); Instances is VM.assign and
--                                 the script that connects to a machine; Destroy is destroy, with
--                                 Headers, Frame, Stopped and Removed about its steps, Laws and Failed
--                                 about the whole
--   Example                       class BaseExample of framework/examples.py: the upload of a
--                                 blueprint, the deployment, the workflows and, in Files, the checks
--                                 on files; Workflow is about execute and install; Making is how an
--                                 example is made, with the plugins that VM uploads for it
--   Run                           run of framework/util.py, a command on the tester; Codes is about
--                                 the process that it hands back
--   Packages                      create_rest_client, get_cli_package_url, test_cli_package_url and
--                                 substitute_testing_version of framework/util.py; Format is str.format
--   Certificates                  generate_ssl_certificate and generate_ca_cert of framework/util.py
--   Value/Update                  update_dictionary of framework/util.py; Value/Equal is == of Python on
--                                 values
--   ConfCli                       conf_cli.py: show_schema; Platform is apply_platform_config, Main is
--                                 main
--   DeploymentUpdate              framework/deployment_update.py
--   Managed                       a manager as the tests hold it, a machine and the client of the
--                                 manager on it; Agents is validate_agents,
--                                 validate_cluster_status_and_agents and get_manager_install_version
--                                 of framework/util.py
--   Snapshots                     test_suites/snapshots/__init__.py: Restore is restore_snapshot, with
--                                 Outcome and Bounds about what it comes to and what it sends; Copy is
--                                 create_copy_and_restore_snapshot, State is get_manager_state and
--                                 confirm_manager_empty, Services is about verify_services_status
--   Sorting                       sorted, and listings that differ in their order only
--   Cluster                       test_suites/cluster/cluster_status_shared.py: Failures are the checks
--                                 of a cluster whose nodes are stopped, Health is about
--                                 _assert_cluster_status
--   ClusterManager                test_suites/cluster/cfy_cluster_manager_shared.py: Config is the
--                                 configuration of three and of nine nodes, Upgrade the upgrade of a
--                                 cluster that has a deployment
--   Logs                          test_suites/general/logs.py: a bundle of the logs of some managers
--   Saml                          test_suites/auth/saml_responses.py: Templates are the texts of the
--                                 two providers, Times the times in a response
--   ReplaceCerts                  resources/scripts/create_replace_certs_config_script.py
--   Cli                           test_suites/cli/__init__.py: an example from the profile to the
--                                 teardown by the command line; Teardown is about _test_teardown
--   Tests                         runs at concrete inputs
--
-- How the parts interact: the waits of Execution run inside the blocks of Client/Tenant, and
-- Deployment calls Execution; Host/Bootstrap calls Host/Manager and Host/Services for the machine
-- that it installs. Example runs the functions of Deployment and Execution under the tenant of the
-- example, and DeploymentUpdate and Cli run those of Example. Snapshots calls Execution and
-- Resources in the session of a manager, and Host/Manager on its machine, which a change of the
-- password gives a new client for the session. ConfCli/Main calls Config/Load and Config/Check.
-- Hosts runs Deployment and Execution in its session with the infrastructure manager, and a
-- failure in Hosts/Create runs Hosts/Destroy before it is raised. ClusterManager
-- installs its deployment by commands on the manager, before the upgrade.
--
-- State and operations. A function of util.py is an action over a Session (headers, log, world); a
-- method of VM is an action over a Host (the machine's fields, the commands sent to it, world),
-- one of an example over a Bench (the session, the fields of the example), one of a manager's
-- snapshots over a Managed (the session, the machine, the commands sent); a method of Hosts is one
-- over a Hosts (the session with the infrastructure manager, the fields of the object). Where two
-- managers take part (Snapshots.Copy.Pair, Cluster.Failures.Clients), each has its own headers,
-- and they share the world and the log. A Config is the schema and the raw configuration that the
-- object holds. The generated configuration is computed when it is needed, where the code keeps
-- it: it depends on nothing that changes after the first use.
--
-- What is not under this repository is a parameter: the calls of cloudify_rest_client and the
-- clock are the records Client.Api, Example.Site, Resources.Resources, DeploymentUpdate.Updates
-- and Cluster.ClusterCalls, for Hosts Hosts.Infrastructure, Hosts.Setup.SetupSite,
-- Hosts.Deploy.VmSite and Hosts.Instances.Workplace, for the cluster manager
-- ClusterManager.ClusterSite, the archives and files of log bundles are Logs.LogSite and those of
-- the script for certificates ReplaceCerts.ScriptSite, processes and globs are Run.Shell, the
-- connection to a machine and the files of the tester are Host.Machine, the retrying package is
-- Act.Retry.Retrying, and Act.RetryIf.RetryingIf where only some exceptions are retried, with its
-- documented behaviour as laws. How values are written (json.dumps, str) is ConfCli.Writer, what a
-- host of the command line prints is read by Cli.CliHost, and the kinds of addresses and the order
-- of a set are Certificates.Platform. A theorem about the passing of time takes
-- Execution.Total.Ticks: no call turns the clock back, and reading it takes time.
--
-- Loops and fuel. `while True` runs on fuel, and a loop whose fuel has run out gives `running`,
-- which is no exception and nothing catches. The wait for an execution needs no more fuel than its
-- time-out has microseconds, and one. The waits for a bootstrap and for an environment have no
-- time-out in the code, so no fuel is enough in general, and neither has the wait for a log
-- bundle. Hosts waits with the time-outs of its executions, on the fuel of these waits. A
-- bootstrap that is only started runs on no fuel, since it does not wait. The other loops are over
-- lists or counters. Times are in microseconds; numbers do not overflow in Python.
--
-- The wait for a restore has sixty rounds, and each waits for an execution on fuel.
--
-- Not modelled: the texts of exceptions, log lines of the configuration, of the machines and of
-- certificates, ssh connections and Windows machines, the parsing of arguments by argparse, the
-- guards of Hosts.__init__ and Hosts.rsync_backup over several machines, the comparison of log
-- bundles and the set-up of hosts for the command line, the helpers of util.py for files and ssh
-- keys, the pytest fixtures (conftest.py, test_suites/cluster/conftest.py), and the test cases
-- themselves, which drive a live manager.
pub mod Prelude
pub mod Dict
pub mod Act
pub mod Text
pub mod Value
pub mod Config
pub mod Client
pub mod Execution
pub mod Deployment
pub mod Host
pub mod Hosts
pub mod Example
pub mod Logs
pub mod Managed
pub mod Saml
pub mod Snapshots
pub mod Run
pub mod ReplaceCerts
pub mod Resources
pub mod ConfCli
pub mod DeploymentUpdate
pub mod Cluster
pub mod ClusterManager
pub mod Cli
pub mod Packages
pub mod Certificates
pub mod Sorting
mod Tests
